-- ===== src/Boot/Printed.antt =====
-- kernel.c: what the start of the kernel sends to the devices.
use clb_filesystem.Common.{ℕ, suc, ◌%◌, ◌^◌, ◌≡◌, refl, ◌∙◌, sym, ap, List, [], ◌∷◌, ◌++◌, map, ok}
use mathlib.Core.List.{append_assoc, append-nil}
use clb_filesystem.Common.Words.{ℤ}
use clb_filesystem.Devices.{
  Device, aux_enables, aux_mu_cntl_reg, aux_mu_ier_reg, aux_mu_lcr_reg, aux_mu_mcr_reg,
  aux_mu_iir_reg, aux_mu_baud_reg, gpfsel1, gppud, gppudclk0, select_alt5, uart_init,
}
use clb_filesystem.Devices.Console.{IsReady, sent, uart_send_lem}
use clb_filesystem.Boot.{put_bytes, printf}

-- The writes that make the serial line ready, for what the pins' register held: eight bits, 115200
-- baud (a clock of 250 MHz, divided by 8 * (270 + 1)), and pins 14 and 15 with their function 5.
abbrev pub line_setup : (selector : ℕ) → List (ℕ × ℕ)
line_setup selector =
    (aux_enables, 1)
    ∷ (aux_mu_cntl_reg, 0)
    ∷ (aux_mu_ier_reg, 0)
    ∷ (aux_mu_lcr_reg, 3)
    ∷ (aux_mu_mcr_reg, 0)
    ∷ (aux_mu_iir_reg, 0xc6)
    ∷ (aux_mu_baud_reg, 270)
    ∷ (gpfsel1, select_alt5 0x8000 (select_alt5 0x1000 selector))
    ∷ (gppud, 0)
    ∷ (gppudclk0, 0xc000)
    ∷ (gppudclk0, 0)
    ∷ (aux_mu_cntl_reg, 3)
    ∷ []

pub uart_init-writes :
    (input : ℕ → ℕ → ℕ) (d : Device)
    → (uart_init input d).written ≡ d.written ++ line_setup (input d.reads gpfsel1 % 2 ^ 32)
unfolding uart_init
uart_init-writes input d = append_assoc d.written _ _

module _ (format : List ℕ → List ℤ → List ℕ) (input : ℕ → ℕ → ℕ) (w : ℕ)
    (ready : IsReady input 0x20 w) where
  put_bytes_lem :
      (d : Device) (text : List ℕ)
      → (d' : Device) × (put_bytes format input (suc w) d text ≡ ok d')
        × (d'.written ≡ d.written ++ map sent text)
  unfolding put_bytes
  put_bytes_lem d [] = (d, refl, sym (append-nil d.written))
  put_bytes_lem d (c ∷ text) =
      let (d', runs, put) = uart_send_lem input w d c ready in
      let (d'', ends, all) = put_bytes_lem d' text in
      (
        d'',
        rw runs ends,
        all
            ∙ ap (λ z. z ++ map sent text) put
            ∙ append_assoc d.written (sent c ∷ []) (map sent text),
      )

  -- Where the transmitter gets ready, `printf` ends, and puts its bytes on the line in their order.
  pub printf_lem :
      (d : Device) (text : List ℕ) (arguments : List ℤ)
      → (d' : Device) × (printf format input (suc w) d text arguments ≡ ok d')
        × (d'.written ≡ d.written ++ map sent (format text arguments))
  unfolding printf
  printf_lem d text arguments = put_bytes_lem d (format text arguments)
