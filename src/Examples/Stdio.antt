-- ===== src/Examples/Stdio.antt =====
-- Files in memory, on a disk that takes a given number of pieces, for the writer of
-- blconfd/blconf-backend-perchannel-xml.c.
use blconf.Base.{
  ℕ, zero, suc, ◌≡◌, ◌≢◌, refl, ap, ◌∙◌, Bool, true, false, Option, none, some, [], ◌++◌, Text,
  arith, str_eq, str_eq_iff, if◌then◌else◌,
}
use blconf.Writer.{Files}
use blconf.Writer.Laws.{FilesLaws}

pub record Memory : Type 0 where
  pub entries : Text → Option Text
  pub path : Text
  pub put : Text
  pub room : ℕ

pub update : Text → Option Text → (Text → Option Text) → Text → Option Text
update p v f q = if str_eq p q then v else f q

pub update-eq : (p : Text) (v : Option Text) (f : Text → Option Text) → update p v f p ≡ v
unfolding update
update-eq p v f = ground (arith, str_eq_iff p p)

pub update-ne :
    (p q : Text) (v : Option Text) (f : Text → Option Text) → q ≢ p → update p v f q ≡ f q
unfolding update
update-ne p q v f ne = ground (arith, str_eq_iff p q, ne)

unfoldable pub puts : ℕ → Text → Memory → Bool × Memory
puts zero t st = (false, st)
puts (suc room) t st = (true, record st { put = st.put ++ t; room = room })

unfoldable pub moves : Option Text → Text → Text → Memory → Bool × Memory
unfolding update
moves none p q st = (false, st)
moves (some t) p q st = (true, record st { entries = update q (some t) (update p none st.entries) })

unfoldable pub memory : Files Memory
unfolding puts moves update
memory = record {
  fopen = λ p st. (true, record st { path = p; put = [] });
  fputs = λ t st. puts st.room t st;
  fflush = λ st. (true, st);
  fdatasync = λ st. (true, st);
  fclose = λ st. (true, record st { entries = update st.path (some st.put) st.entries });
  rename = λ p q st. moves (st.entries p) p q st;
}

pub puts-kept :
    (room : ℕ) (t : Text) (st : Memory)
    → ((puts room t st).1.path ≡ st.path) × ((puts room t st).1.entries ≡ st.entries)
unfolding puts
puts-kept zero t st = (refl, refl)
puts-kept (suc room) t st = (refl, refl)

pub puts-put :
    (room : ℕ) (t : Text) (st : Memory)
    → (puts room t st).0 ≡ true
    → (puts room t st).1.put ≡ st.put ++ t
unfolding puts
puts-put zero t st e = cc e
puts-put (suc room) t st e = refl

pub moves-to :
    (o : Option Text) (p q : Text) (st : Memory)
    → (moves o p q st).0 ≡ true
    → (moves o p q st).1.entries q ≡ o
unfolding moves
moves-to none p q st e = cc e
moves-to (some t) p q st e = update-eq q (some t) (update p none st.entries)

pub moves-fails :
    (o : Option Text) (p q r : Text) (st : Memory)
    → (moves o p q st).0 ≡ false
    → (moves o p q st).1.entries r ≡ st.entries r
unfolding moves
moves-fails none p q r st e = refl
moves-fails (some t) p q r st e = cc e

pub moves-ne :
    (o : Option Text) (p q r : Text) (st : Memory)
    → r ≢ p
    → r ≢ q
    → (moves o p q st).1.entries r ≡ st.entries r
unfolding moves
moves-ne none p q r st np nq = refl
moves-ne (some t) p q r st np nq =
    update-ne q r (some t) (update p none st.entries) nq ∙ update-ne p r none st.entries np

unfoldable pub memory_laws : FilesLaws memory
unfolding memory
memory_laws = record {
  content = λ st. st.entries;
  path = λ st. st.path;
  put = λ st. st.put;
  fopen-path = λ p st e. refl;
  fopen-put = λ p st e. refl;
  fopen-content = λ p q st ne. refl;
  fputs-path = λ t st. (puts-kept st.room t st).0;
  fputs-put = λ t st e. puts-put st.room t st e;
  fputs-content = λ t q st ne. ap (λ (f : Text → Option Text). f q) (puts-kept st.room t st).1;
  fflush-path = λ st. refl;
  fflush-put = λ st e. refl;
  fflush-content = λ q st ne. refl;
  fdatasync-path = λ st. refl;
  fdatasync-put = λ st e. refl;
  fdatasync-content = λ q st ne. refl;
  fclose-put = λ st e. update-eq st.path (some st.put) st.entries;
  fclose-content = λ q st ne. update-ne st.path q (some st.put) st.entries ne;
  rename-to = λ p q st e. moves-to (st.entries p) p q st e;
  rename-fails = λ p q r st e. moves-fails (st.entries p) p q r st e;
  rename-content = λ p q r st np nq. moves-ne (st.entries p) p q r st np nq;
}
