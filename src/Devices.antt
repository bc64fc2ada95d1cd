-- ===== src/Devices.antt =====
-- mini_uart.c, timer.c and irq.c: the devices. A register's address is given from `PBASE` on. What a
-- read gives is the device's affair: `input n r` is the answer to the n-th read, of the register r.
-- The writes are kept in order. `delay` only takes time.
pub mod Console
use Prim.Native.String.{String}
use clb_filesystem.Common.{
  ℕ, zero, suc, ◌+◌, ◌-◌, ◌*◌, ◌/◌, ◌%◌, ◌^◌, Bool, true, false, Option, List, [], ◌∷◌, ◌++◌,
  get_elem?, need, ◌==◌, if◌then◌else◌, Outcome, ok, fault, out_of_fuel, ◌>>=◌,
}
use clb_filesystem.Sched.{Sched, timer_tick}

abbrev pub aux_enables : ℕ
aux_enables = 0x215004

abbrev pub aux_mu_io_reg : ℕ
aux_mu_io_reg = 0x215040

abbrev pub aux_mu_ier_reg : ℕ
aux_mu_ier_reg = 0x215044

abbrev pub aux_mu_iir_reg : ℕ
aux_mu_iir_reg = 0x215048

abbrev pub aux_mu_lcr_reg : ℕ
aux_mu_lcr_reg = 0x21504c

abbrev pub aux_mu_mcr_reg : ℕ
aux_mu_mcr_reg = 0x215050

abbrev pub aux_mu_lsr_reg : ℕ
aux_mu_lsr_reg = 0x215054

abbrev pub aux_mu_cntl_reg : ℕ
aux_mu_cntl_reg = 0x215060

abbrev pub aux_mu_baud_reg : ℕ
aux_mu_baud_reg = 0x215068

abbrev pub gpfsel1 : ℕ
gpfsel1 = 0x200004

abbrev pub gppud : ℕ
gppud = 0x200094

abbrev pub gppudclk0 : ℕ
gppudclk0 = 0x200098

abbrev pub timer_cs : ℕ
timer_cs = 0x3000

abbrev pub timer_clo : ℕ
timer_clo = 0x3004

abbrev pub timer_c1 : ℕ
timer_c1 = 0x3010

abbrev pub irq_pending_1 : ℕ
irq_pending_1 = 0xb204

abbrev pub enable_irqs_1 : ℕ
enable_irqs_1 = 0xb210

-- `SYSTEM_TIMER_IRQ_1`, and `TIMER_CS_M1`
abbrev pub system_timer_irq_1 : ℕ
system_timer_irq_1 = 2

-- `interval` of timer.c
abbrev pub interval : ℕ
interval = 200000

pub record Device : Type 0 where
  pub reads : ℕ
  pub written : List (ℕ × ℕ)

abbrev pub put32 : Device → (register value : ℕ) → Device
put32 d register value = record d { written = d.written ++ (register, value) ∷ [] }

-- Writes in a row.
abbrev pub put_all : Device → List (ℕ × ℕ) → Device
put_all d ws = record d { written = d.written ++ ws }

-- The function of a pin, a field of three bits from the bit `low` on, is set to 2:
-- `selector &= ~(7 << n); selector |= 2 << n` for `low` 2 to the power of n.
unfoldable pub select_alt5 : (low selector : ℕ) → ℕ
select_alt5 low selector = selector - selector % (8 * low) + selector % low + 2 * low

-- `curVal`, the writes, and the scheduler, which `timer_tick` calls.
pub record Clock : Type 0 where
  pub cur_val : ℕ
  pub device : Device
  pub sched : Sched

-- `handle_timer_irq`, for k rounds of the scheduler's loop
unfoldable pub handle_timer_irq : ℕ → Clock → Outcome Clock
handle_timer_irq k s = do
  let cur_val = (s.cur_val + interval) % 2 ^ 32
  let d = put32 (put32 s.device timer_c1 cur_val) timer_cs system_timer_irq_1
  sched' ← timer_tick k s.sched
  ok (record { cur_val = cur_val; device = d; sched = sched' })

-- `enable_interrupt_controller`
abbrev pub enable_interrupt_controller : Device → Device
enable_interrupt_controller d = put32 d enable_irqs_1 system_timer_irq_1

module _ (input : ℕ → ℕ → ℕ) where
  abbrev pub get32 : Device → (register : ℕ) → ℕ × Device
  get32 d register = (input d.reads register % 2 ^ 32, record d { reads = suc d.reads })

  -- The loops that wait for a bit of the line status, given by its value.
  unfoldable pub wait_for : ℕ → (bit : ℕ) → Device → Outcome Device
  wait_for zero bit d = out_of_fuel
  wait_for (suc k) bit d = elim ((get32 d aux_mu_lsr_reg).0 / bit % 2 == 1) [
    | true ↦ ok (get32 d aux_mu_lsr_reg).1
    | false ↦ wait_for k bit (get32 d aux_mu_lsr_reg).1
  ]

  -- `uart_send`, and `putc`, which calls it
  unfoldable pub uart_send : ℕ → Device → (c : ℕ) → Outcome Device
  uart_send k d c = do d' ← wait_for k 0x20 d; ok (put32 d' aux_mu_io_reg c)

  -- `uart_recv`
  unfoldable pub uart_recv : ℕ → Device → Outcome (ℕ × Device)
  uart_recv k d = do
    d' ← wait_for k 0x01 d
    let (c, d'') = get32 d' aux_mu_io_reg
    ok (c % 256, d'')

  -- `uart_send_string`, for the bytes from `str` to the end of its object
  unfoldable pub uart_send_string : ℕ → Device → List ℕ → Outcome Device
  uart_send_string k d [] = fault
  uart_send_string k d (c ∷ str) = elim (c == 0) [
    | true ↦ ok d
    | false ↦ uart_send k d c >>= λ d'. uart_send_string k d' str
  ]

  -- `uart_init`
  unfoldable pub uart_init : Device → Device
  uart_init d =
      let d₁ = put_all d (
        (aux_enables, 1)
        ∷ (aux_mu_cntl_reg, 0)
        ∷ (aux_mu_ier_reg, 0)
        ∷ (aux_mu_lcr_reg, 3)
        ∷ (aux_mu_mcr_reg, 0)
        ∷ (aux_mu_iir_reg, 0xc6)
        ∷ (aux_mu_baud_reg, 270)
        ∷ []) in
      let (selector, d₂) = get32 d₁ gpfsel1 in
      put_all d₂ (
        (gpfsel1, select_alt5 0x8000 (select_alt5 0x1000 selector))
        ∷ (gppud, 0)
        ∷ (gppudclk0, 0xc000)
        ∷ (gppudclk0, 0)
        ∷ (aux_mu_cntl_reg, 3)
        ∷ [])

  -- `timer_init`
  unfoldable pub timer_init : Clock → Clock
  timer_init s =
      let (now, d) = get32 s.device timer_clo in
      let cur_val = (now + interval) % 2 ^ 32 in
      record s { cur_val = cur_val; device = put32 d timer_c1 cur_val }

  -- `handle_irq`; the message about any other interrupt is left out
  unfoldable pub handle_irq : ℕ → Clock → Outcome Clock
  handle_irq k s =
      let (irq, d) = get32 s.device irq_pending_1 in
      let s' = record s { device = d } in
      elim (irq == system_timer_irq_1) [ true ↦ handle_timer_irq k s' | false ↦ ok s' ]

-- `entry_error_messages`, as `show_invalid_entry_message` indexes it
unfoldable pub entry_error_message : (type : ℕ) → Outcome String
entry_error_message type = need (
    get_elem?
      ("SYNC_INVALID_EL1t" ∷ "IRQ_INVALID_EL1t" ∷ "FIQ_INVALID_EL1t" ∷ "ERROR_INVALID_EL1T"
        ∷ "SYNC_INVALID_EL1h" ∷ "IRQ_INVALID_EL1h" ∷ "FIQ_INVALID_EL1h" ∷ "ERROR_INVALID_EL1h"
        ∷ "SYNC_INVALID_EL0_64" ∷ "IRQ_INVALID_EL0_64" ∷ "FIQ_INVALID_EL0_64"
        ∷ "ERROR_INVALID_EL0_64" ∷ "SYNC_INVALID_EL0_32" ∷ "IRQ_INVALID_EL0_32"
        ∷ "FIQ_INVALID_EL0_32" ∷ "ERROR_INVALID_EL0_32" ∷ [])
      type)
