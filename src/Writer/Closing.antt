-- ===== src/Writer/Closing.antt =====
-- The end of blconf_backend_perchannel_xml_flush_channel of blconfd/blconf-backend-perchannel-xml.c: the calls of
-- fclose and rename.
use blconf.Base.{
  ℕ, ◌≡◌, ◌≢◌, refl, sym, ap, ◌∙◌, Bool, true, false, ◌&&◌, Bool-cases, inl, inr, Option, none,
  some, [], ◌∷◌, ◌++◌, Text, arith, str_eq, str_eq_iff, if◌then◌else◌,
}
use blconf.Writer.{Files, seq, step}
use blconf.Writer.Flush.{temporary, close_after}
use blconf.Writer.Laws.{FilesLaws}
use blconf.Writer.Pieces.{Open, Kept, Outcome}

pub seq-fails {ℓ} :
    {S : Type ℓ} (r : Bool × S) (next : S → Bool × S) → r.0 ≡ false → (seq r next).0 ≡ false
unfolding seq
seq-fails (false, st) next e = refl
seq-fails (true, st) next e = cc e

pub longer : (s t : Text) (c : ℕ) → s ≢ s ++ (c ∷ t)
longer [] t c e = cc e
longer (d ∷ s) t c e = longer s t c (ground (arith, e))

module _ {ℓ} {S : Type ℓ} (files : Files S) (laws : FilesLaws files) (filename : Text)
    (base : S) where
  -- the stream is closed
  abbrev pub Closed : Bool × S → Option Text → Type 0
  Closed (false, st) t = Kept files laws (temporary filename) base st
  Closed (true, st) none = ⊥
  Closed (true, st) (some t) =
      Kept files laws (temporary filename) base st × (laws.content st (temporary filename) ≡ some t)

  closed :
      (r : Bool × S) (t : Text)
      → Kept files laws (temporary filename) base r.1
      → (r.0 ≡ true → laws.content r.1 (temporary filename) ≡ some t)
      → Closed r (some t)
  closed (false, st) t kept there = kept
  closed (true, st) t kept there = (kept, there refl)

  fclose-Kept :
      (st : S)
      → Open files laws (temporary filename) base st
      → Kept files laws (temporary filename) base (files.fclose st).1
  fclose-Kept st opened q ne = laws.fclose-content q st (λ e. ne (e ∙ opened.at)) ∙ opened.kept q ne

  pub close_after-Closed :
      (r : Bool × S) (t : Option Text)
      → Outcome files laws (temporary filename) base r t
      → Closed (close_after files r) t
  unfolding close_after
  close_after-Closed (false, st) t o = fclose-Kept st o
  close_after-Closed (true, st) none o = absurd o
  close_after-Closed (true, st) (some t) (opened, put) =
      closed (files.fclose st) t (fclose-Kept st opened) (λ e.
        ap (laws.content (files.fclose st).1) (sym opened.at)
        ∙ laws.fclose-put st e
        ∙ ap (λ x. some x) put)

  pub step-Closed {κ} :
      {A : Type κ} (r : Bool × S) (a : A) (next : S → (Bool × S) × A) (t : Option Text)
      → Kept files laws (temporary filename) base r.1
      → (r.0 ≡ true → Outcome files laws (temporary filename) base (true, r.1) (some []))
      → ((st : S)
          → Outcome files laws (temporary filename) base (true, st) (some [])
          → Closed (next st).0 t)
      → Closed (step r a next).0 t
  unfolding step
  step-Closed (false, st) a next t kept opened h = kept
  step-Closed (true, st) a next t kept opened h = h st (opened refl)

  -- what every path but the temporary one names after the last call
  abbrev pub Replaced : Text → Bool × S → Option Text → Type 0
  Replaced q r t =
      laws.content r.1 q ≡ (if r.0 && str_eq q filename then t else laws.content base q)

  rename-Replaced :
      (q t : Text) (st : S)
      → q ≢ temporary filename
      → Closed (true, st) (some t)
      → Replaced q (files.rename (temporary filename) filename st) (some t)
  rename-Replaced q t st ne (kept, there) =
      elim (Bool-cases (files.rename (temporary filename) filename st).0) [
        | inl e ↦ elim (Bool-cases (str_eq q filename)) [
          | inl same ↦
              rw (e, same)
                (ap (laws.content (files.rename (temporary filename) filename st).1)
                    ((str_eq_iff q filename).0 same)
                  ∙ laws.rename-to (temporary filename) filename st e
                  ∙ there)
          | inr other ↦
              rw (e, other)
                (laws.rename-content (temporary filename) filename q st ne
                    (λ k. ground (arith, k, other, str_eq_iff q filename))
                  ∙ kept q ne)
        ]
        | inr e ↦ rw e (laws.rename-fails (temporary filename) filename q st e ∙ kept q ne)
      ]

  pub seq-Replaced :
      (q : Text) (r : Bool × S) (t : Option Text)
      → q ≢ temporary filename
      → Closed r t
      → Replaced q (seq r (files.rename (temporary filename) filename)) t
  unfolding seq
  seq-Replaced q (false, st) t ne kept = kept q ne
  seq-Replaced q (true, st) none ne c = absurd c
  seq-Replaced q (true, st) (some t) ne c = rename-Replaced q t st ne c

  pub unprintable : (r : Bool × S) → Closed r none → r.0 ≡ false
  unprintable (false, st) c = refl
  unprintable (true, st) c = absurd c
