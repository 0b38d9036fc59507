-- ===== src/Console/Output/Refine.antt =====
-- What `cons_putc` does to the display.
use jos.Base.{ℕ, ◌≡◌, refl, sym, ap, ◌∙◌, arith, true, false, Bool-cases, inl, inr, ◌==◌, bit_and}
use jos.Ports.{Ports}
use jos.Console.Screen.{Screen, with_attribute, dispatch, scroll, put_blank, tab, cga_putc}
use jos.Console.Output.{Machine, display_putc, send, cons_blank, five_blanks, cons_putc}

dispatch_tab :
    (f : Screen → Screen) (c : ℕ) (s : Screen)
    → (bit_and c 0xff == 0x09) ≡ true
    → dispatch f c s ≡ f s
unfolding dispatch
dispatch_tab f c s t = ground arith

dispatch_same :
    (f g : Screen → Screen) (c : ℕ) (s : Screen)
    → (bit_and c 0xff == 0x09) ≡ false
    → dispatch f c s ≡ dispatch g c s
unfolding dispatch
dispatch_same f g c s t = ground arith

module _ {W : Type 0} (io : Ports W) where
  -- With a `tab` that does to the display what `f` does.
  display_putc-screen :
      (t : Machine W → Machine W) (f : Screen → Screen) (c : ℕ) (s : Machine W)
      → (t s).screen ≡ f s.screen
      → (display_putc io t c s).screen ≡ scroll (dispatch f (with_attribute c) s.screen)
  unfolding display_putc
  display_putc-screen t f c s same = elim (Bool-cases (bit_and (with_attribute c) 0xff == 0x09)) [
    | inl e ↦ rw e (ap scroll (same ∙ sym (dispatch_tab f (with_attribute c) s.screen e)))
    | inr e ↦ rw e (ap scroll (dispatch_same (λ t. t) f (with_attribute c) s.screen e))
  ]

  cons_blank-screen : (s : Machine W) → (cons_blank io s).screen ≡ put_blank s.screen
  unfolding cons_blank put_blank send
  cons_blank-screen s = display_putc-screen (λ t. t) (λ t. t) 0x20 (send io 0x20 s) refl

  five_blanks-screen : (s : Machine W) → (five_blanks io s).screen ≡ tab s.screen
  unfolding five_blanks
  five_blanks-screen s =
      let blank = cons_blank-screen in
      blank _
      ∙ ap put_blank
          (blank _ ∙ ap put_blank (blank _ ∙ ap put_blank (blank _ ∙ ap put_blank (blank s))))

  -- Whatever the devices answer, `cons_putc` does to the display what `cga_putc` does.
  pub cons_putc-cga_putc : (c : ℕ) (s : Machine W) → (cons_putc io c s).screen ≡ cga_putc c s.screen
  unfolding cons_putc cga_putc send
  cons_putc-cga_putc c s =
      display_putc-screen (five_blanks io) tab c (send io c s) (five_blanks-screen (send io c s))
