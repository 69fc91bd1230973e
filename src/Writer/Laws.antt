-- ===== src/Writer/Laws.antt =====
-- The files of the C library that blconfd/blconf-backend-perchannel-xml.c writes: what their documentation
-- says of fopen, fputs, fflush, fdatasync, fclose and rename.
use blconf.Base.{◌≡◌, ◌≢◌, true, false, Option, some, [], ◌++◌, Text}
use blconf.Writer.{Files}

-- What the C library's documentation says of its calls, for what a path names (`content`), the path of
-- the stream (`path`) and what was put in it (`put`). A call that fails may leave anything in the file
-- that is written, and nothing else.
pub record FilesLaws {ℓ} {S : Type ℓ} (files : Files S) : Type ℓ where
  pub content : S → Text → Option Text
  pub path : S → Text
  pub put : S → Text
  pub fopen-path : (p : Text) (st : S) → (files.fopen p st).0 ≡ true → path (files.fopen p st).1 ≡ p
  pub fopen-put : (p : Text) (st : S) → (files.fopen p st).0 ≡ true → put (files.fopen p st).1 ≡ []
  pub fopen-content : (p q : Text) (st : S) → q ≢ p → content (files.fopen p st).1 q ≡ content st q
  pub fputs-path : (t : Text) (st : S) → path (files.fputs t st).1 ≡ path st
  pub fputs-put :
      (t : Text) (st : S) → (files.fputs t st).0 ≡ true → put (files.fputs t st).1 ≡ put st ++ t
  pub fputs-content :
      (t q : Text) (st : S) → q ≢ path st → content (files.fputs t st).1 q ≡ content st q
  pub fflush-path : (st : S) → path (files.fflush st).1 ≡ path st
  pub fflush-put : (st : S) → (files.fflush st).0 ≡ true → put (files.fflush st).1 ≡ put st
  pub fflush-content :
      (q : Text) (st : S) → q ≢ path st → content (files.fflush st).1 q ≡ content st q
  pub fdatasync-path : (st : S) → path (files.fdatasync st).1 ≡ path st
  pub fdatasync-put : (st : S) → (files.fdatasync st).0 ≡ true → put (files.fdatasync st).1 ≡ put st
  pub fdatasync-content :
      (q : Text) (st : S) → q ≢ path st → content (files.fdatasync st).1 q ≡ content st q
  pub fclose-put :
      (st : S) → (files.fclose st).0 ≡ true → content (files.fclose st).1 (path st) ≡ some (put st)
  pub fclose-content :
      (q : Text) (st : S) → q ≢ path st → content (files.fclose st).1 q ≡ content st q
  pub rename-to :
      (p q : Text) (st : S)
      → (files.rename p q st).0 ≡ true
      → content (files.rename p q st).1 q ≡ content st p
  pub rename-fails :
      (p q r : Text) (st : S)
      → (files.rename p q st).0 ≡ false
      → content (files.rename p q st).1 r ≡ content st r
  pub rename-content :
      (p q r : Text) (st : S) → r ≢ p → r ≢ q → content (files.rename p q st).1 r ≡ content st r
