-- ===== src/Writer/Pieces.antt =====
-- A sequence of calls that writes a file, as blconfd/blconf-backend-perchannel-xml.c makes it: what each call
-- leaves, and what they leave together.
use blconf.Base.{
  ◌≡◌, ◌≢◌, refl, sym, ap, ◌∙◌, Bool, true, false, Option, none, some, [], ◌++◌, append-nil, subst,
  Text,
}
use blconf.Writer.{Files, seq, step}
use blconf.Writer.Laws.{FilesLaws}
use blconf.Writer.Document.{glue, glue_assoc}

module _ {ℓ} {S : Type ℓ} (files : Files S) (laws : FilesLaws files) (tmp : Text) (base : S) where
  -- every file but the temporary one is as it was
  abbrev pub Kept : S → Type 0
  Kept st = (q : Text) → q ≢ tmp → laws.content st q ≡ laws.content base q

  pub record Open (st : S) : Type 0 where
    pub at : laws.path st ≡ tmp
    pub kept : Kept st

  abbrev pub Outcome : Bool × S → Option Text → Type 0
  Outcome (false, st) t = Open st
  Outcome (true, st) none = ⊥
  Outcome (true, st) (some t) = Open st × (laws.put st ≡ t)

  outcome :
      (r : Bool × S) (t : Text) → Open r.1 → (r.0 ≡ true → laws.put r.1 ≡ t) → Outcome r (some t)
  outcome (false, st) t opened put = opened
  outcome (true, st) t opened put = (opened, put refl)

  pub fputs-Outcome :
      (t acc : Text) (st : S)
      → Outcome (true, st) (some acc)
      → Outcome (files.fputs t st) (some (acc ++ t))
  fputs-Outcome t acc st (opened, put) =
      outcome (files.fputs t st) (acc ++ t)
        (record {
          at = laws.fputs-path t st ∙ opened.at;
          kept = λ q ne. laws.fputs-content t q st (λ e. ne (e ∙ opened.at)) ∙ opened.kept q ne;
        })
        (λ e. laws.fputs-put t st e ∙ ap (λ x. x ++ t) put)

  pub fflush-Outcome :
      (acc : Text) (st : S) → Outcome (true, st) (some acc) → Outcome (files.fflush st) (some acc)
  fflush-Outcome acc st (opened, put) =
      outcome (files.fflush st) acc
        (record {
          at = laws.fflush-path st ∙ opened.at;
          kept = λ q ne. laws.fflush-content q st (λ e. ne (e ∙ opened.at)) ∙ opened.kept q ne;
        })
        (λ e. laws.fflush-put st e ∙ put)

  pub fdatasync-Outcome :
      (acc : Text) (st : S)
      → Outcome (true, st) (some acc)
      → Outcome (files.fdatasync st) (some acc)
  fdatasync-Outcome acc st (opened, put) =
      outcome (files.fdatasync st) acc
        (record {
          at = laws.fdatasync-path st ∙ opened.at;
          kept = λ q ne. laws.fdatasync-content q st (λ e. ne (e ∙ opened.at)) ∙ opened.kept q ne;
        })
        (λ e. laws.fdatasync-put st e ∙ put)

  -- the text `u` is put behind what is there
  abbrev pub Puts : (S → Bool × S) → Option Text → Type ℓ
  Puts next u =
      (acc : Text) (st : S) → Outcome (true, st) (some acc) → Outcome (next st) (glue (some acc) u)

  seq-Outcome :
      (r : Bool × S) (t u : Option Text) (next : S → Bool × S)
      → Outcome r t
      → Puts next u
      → Outcome (seq r next) (glue t u)
  unfolding seq glue
  seq-Outcome (false, st) t u next o h = o
  seq-Outcome (true, st) none u next o h = absurd o
  seq-Outcome (true, st) (some t) u next o h = h t st o

  step-Outcome {κ} :
      {A : Type κ} (r : Bool × S) (a : A) (t u : Option Text) (next : S → (Bool × S) × A)
      → Outcome r t
      → Puts (λ st. (next st).0) u
      → Outcome (step r a next).0 (glue t u)
  unfolding step glue
  step-Outcome (false, st) a t u next o h = o
  step-Outcome (true, st) a none u next o h = absurd o
  step-Outcome (true, st) a (some t) u next o h = h t st o

  pub fputs-Puts : (t : Text) → Puts (files.fputs t) (some t)
  unfolding glue
  fputs-Puts t acc st o = fputs-Outcome t acc st o

  unchanged : (acc : Text) (r : Bool × S) → Outcome r (some acc) → Outcome r (some (acc ++ []))
  unchanged acc r o = subst (λ t. Outcome r (some t)) (sym (append-nil acc)) o

  pub nothing-Puts : (next : S → Bool × S) → ((st : S) → next st ≡ (true, st)) → Puts next (some [])
  unfolding glue
  nothing-Puts next still acc st o =
      subst (λ r. Outcome r (some (acc ++ []))) (sym (still st)) (unchanged acc (true, st) o)

  pub seq-Puts :
      (first next : S → Bool × S) (t u : Option Text)
      → Puts first t
      → Puts next u
      → Puts (λ st. seq (first st) next) (glue t u)
  seq-Puts first next t u h k acc st o =
      subst (λ x. Outcome (seq (first st) next) x) (glue_assoc (some acc) t u)
        (seq-Outcome (first st) (glue (some acc) t) u next (h acc st o) k)

  pub step-Puts {κ} :
      {A : Type κ} (first : S → Bool × S) (a : A) (next : S → (Bool × S) × A) (t u : Option Text)
      → Puts first t
      → Puts (λ st. (next st).0) u
      → Puts (λ st. (step (first st) a next).0) (glue t u)
  step-Puts first a next t u h k acc st o =
      subst (λ x. Outcome (step (first st) a next).0 x) (glue_assoc (some acc) t u)
        (step-Outcome (first st) a (glue (some acc) t) u next (h acc st o) k)

  pub Puts-by : (next : S → Bool × S) (t u : Option Text) → t ≡ u → Puts next t → Puts next u
  Puts-by next t u e h = subst (λ v. Puts next v) e h

  pub fflush-Puts : Puts files.fflush (some [])
  unfolding glue
  fflush-Puts acc st o = unchanged acc (files.fflush st) (fflush-Outcome acc st o)

  pub fdatasync-Puts : Puts files.fdatasync (some [])
  unfolding glue
  fdatasync-Puts acc st o = unchanged acc (files.fdatasync st) (fdatasync-Outcome acc st o)
