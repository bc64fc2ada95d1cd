-- ===== src/Devices/Console.antt =====
-- mini_uart.c: what reaches the serial line, where the device becomes ready again and again.
use clb_filesystem.Common.{
  ℕ, zero, suc, ◌+◌, ◌/◌, ◌%◌, ◌^◌, ◌≤◌, ◌<◌, ◌≡◌, refl, ◌∙◌, sym, ap, subst, inl, inr, arith, true,
  false, Bool-cases, List, [], ◌∷◌, ◌++◌, map, ◌==◌, ok,
}
use mathlib.Core.List.{append_assoc, append-nil}
use clb_filesystem.CString.{Holds}
use clb_filesystem.Devices.{
  Device, aux_mu_io_reg, aux_mu_lsr_reg, put32, get32, wait_for, uart_send, uart_send_string,
}

-- Whatever was read before, one of the next w + 1 reads of the line status has the bit.
abbrev pub IsReady : (input : ℕ → ℕ → ℕ) → (bit w : ℕ) → Type 0
IsReady input bit w =
    (n : ℕ) → (m : ℕ) × (m ≤ w) × (input (n + m) aux_mu_lsr_reg % 2 ^ 32 / bit % 2 ≡ 1)

wait_for_lem :
    (input : ℕ → ℕ → ℕ) (k bit m : ℕ) (d : Device)
    → m < k
    → input (d.reads + m) aux_mu_lsr_reg % 2 ^ 32 / bit % 2 ≡ 1
    → (d' : Device) × (wait_for input k bit d ≡ ok d') × (d'.written ≡ d.written)
unfolding wait_for
wait_for_lem input zero bit m d lt ready = absurd (omega arith)
wait_for_lem input (suc k) bit zero d lt ready =
    let start : d.reads + 0 ≡ d.reads = omega arith in
    let now : (input d.reads aux_mu_lsr_reg % 2 ^ 32 / bit % 2 == 1) ≡ true =
      rw (rw start at ready) refl in
    ((get32 input d aux_mu_lsr_reg).1, rw (now, wait_for) refl, refl)
wait_for_lem input (suc k) bit (suc m) d lt ready =
    let next = (get32 input d aux_mu_lsr_reg).1 in
    let after : d.reads + suc m ≡ suc d.reads + m = omega arith in
    let (d', runs, same) =
      wait_for_lem input k bit m next (omega arith)
        (subst (λ n. input n aux_mu_lsr_reg % 2 ^ 32 / bit % 2 ≡ 1) after ready) in
    elim (Bool-cases (input d.reads aux_mu_lsr_reg % 2 ^ 32 / bit % 2 == 1)) [
      | inl now ↦ (next, rw (now, wait_for) refl, refl)
      | inr later ↦ (d', rw (later, wait_for) runs, same)
    ]

-- What a byte on the line is.
abbrev pub sent : ℕ → ℕ × ℕ
sent c = (aux_mu_io_reg, c)

pub uart_send_lem :
    (input : ℕ → ℕ → ℕ) (w : ℕ) (d : Device) (c : ℕ)
    → IsReady input 0x20 w
    → (d' : Device) × (uart_send input (suc w) d c ≡ ok d')
      × (d'.written ≡ d.written ++ sent c ∷ [])
unfolding uart_send
uart_send_lem input w d c ready =
    let (m, le, bit) = ready d.reads in
    let (d', runs, same) = wait_for_lem input (suc w) 0x20 m d (omega arith) bit in
    (put32 d' aux_mu_io_reg c, rw (runs, uart_send) refl, ap (λ z. z ++ sent c ∷ []) same)

-- Where the transmitter is ready after at most w + 1 reads each time, `uart_send_string` of a
-- terminated text ends, and puts exactly the bytes of the text on the line, in their order.
pub uart_send_string_lem :
    (input : ℕ → ℕ → ℕ) (w : ℕ) (s buf : List ℕ) (d : Device)
    → IsReady input 0x20 w
    → Holds buf s
    → (d' : Device) × (uart_send_string input (suc w) d buf ≡ ok d')
      × (d'.written ≡ d.written ++ map sent s)
unfolding uart_send_string
uart_send_string_lem input w s [] d ready holds = absurd holds
uart_send_string_lem input w [] (c ∷ buf) d ready holds =
    (d, rw (holds, uart_send_string) refl, sym (append-nil d.written))
uart_send_string_lem input w (x ∷ s) (c ∷ buf) d ready (same, some_byte, rest) =
    let (d', runs, put) = uart_send_lem input w d c ready in
    let (d'', ends, all) = uart_send_string_lem input w s buf d' ready rest in
    let more : (c == 0) ≡ false = ground arith in
    (
      d'',
      rw (more, uart_send_string) (rw runs ends),
      all
          ∙ ap (λ z. z ++ map sent s) put
          ∙ append_assoc d.written (sent c ∷ []) (map sent s)
          ∙ ap (λ z. d.written ++ sent z ∷ map sent s) same,
    )
