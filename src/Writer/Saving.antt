-- ===== src/Writer/Saving.antt =====
-- What blconf_backend_perchannel_xml_flush_channel leaves in the file system.
use blconf.Base.{
  ℕ, ◌+◌, ◌≡◌, refl, ap, ◌∙◌, Bool, true, false, Option, none, some, [], ◌++◌, append_assoc,
  append-nil, Text, codes,
}
use blconf.Tree.{Forest, leaf, node}
use blconf.Values.{Floats, Value}
use blconf.Writer.Format.{Markup}
use blconf.Writer.{
  Files, seq, step, fitting, spaces, start_tag, has_end, put_start, put_end, write_nodes,
}
use blconf.Writer.Flush.{heading, closing, opening, write_channel}
use blconf.Writer.Laws.{FilesLaws}
use blconf.Writer.Document.{glue, glue_assoc, tag_text, end_text, printed, document}
use blconf.Writer.Pieces.{
  Puts, fputs-Outcome, fputs-Puts, nothing-Puts, seq-Puts, step-Puts, Puts-by, fflush-Puts,
  fdatasync-Puts,
}

glue_four : (s t u v : Option Text) → glue (glue (glue s t) u) v ≡ glue s (glue t (glue u v))
glue_four s t u v = glue_assoc (glue s t) u v ∙ glue_assoc s t (glue u v)

channel_text :
    (h o c : Text) (p : Option Text)
    → glue (glue (glue (glue (glue (some h) (some o)) p) (some c)) (some [])) (some [])
      ≡ glue (some (h ++ o)) (glue p (some c))
unfolding glue
channel_text h o c none = refl
channel_text h o c (some t) =
    ap (λ x. some x)
      (append-nil ((((h ++ o) ++ t) ++ c) ++ [])
        ∙ append-nil (((h ++ o) ++ t) ++ c)
        ∙ append_assoc (h ++ o) t c)

module _ {ℓ} {S : Type ℓ} (files : Files S) (laws : FilesLaws files) (tmp : Text) (base : S)
    {F : Type 0} (floats : Floats F) (markup : Markup) where
  put_start-Puts :
      (tag : Option (Text × Bool × Option (Value F)))
      → Puts files laws tmp base (put_start floats markup files tag) (tag_text floats markup tag)
  unfolding put_start tag_text glue
  put_start-Puts none acc st o = o.0
  put_start-Puts (some (tag, is_array, value)) acc st o =
      fputs-Outcome files laws tmp base tag acc st o

  put_end-Puts :
      (depth : ℕ) (ends : Bool)
      → Puts files laws tmp base
          (put_end floats markup files depth ends)
          (some (end_text floats markup depth ends))
  unfolding put_end end_text
  put_end-Puts depth false = nothing-Puts files laws tmp base _ (λ st. refl)
  put_end-Puts depth true =
      unfold glue in
      seq-Puts files laws tmp base (files.fputs (spaces depth))
        (files.fputs (codes "</property>\n")) (some (spaces depth)) (some (codes "</property>\n"))
        (fputs-Puts files laws tmp base _) (fputs-Puts files laws tmp base _)

  write_nodes-Puts :
      (depth : ℕ) (f : Forest (Value F))
      → Puts files laws tmp base
          (λ st. (write_nodes floats markup files depth f st).0)
          (printed floats markup depth f)
  unfolding write_nodes printed
  write_nodes-Puts depth leaf = nothing-Puts files laws tmp base _ (λ st. refl)
  write_nodes-Puts depth (node p child next) =
      let tag = start_tag floats markup depth p child in
      let begin = put_start floats markup files tag in
      let finish = put_end floats markup files depth (has_end floats markup tag child) in
      let inner = write_nodes floats markup files (fitting depth + 1) child in
      let below =
        step-Puts files laws tmp base begin child inner (tag_text floats markup tag)
          (printed floats markup (fitting depth + 1) child) (put_start-Puts tag)
          (write_nodes-Puts (fitting depth + 1) child) in
      let closed =
        seq-Puts files laws tmp base (λ st. (step (begin st) child inner).0) finish
          (glue (tag_text floats markup tag) (printed floats markup (fitting depth + 1) child))
          (some (end_text floats markup depth (has_end floats markup tag child))) below
          (put_end-Puts depth (has_end floats markup tag child)) in
      let whole =
        step-Puts files laws tmp base (λ st. seq (step (begin st) child inner).0 finish) next
          (write_nodes floats markup files depth next) _ (printed floats markup depth next) closed
          (write_nodes-Puts depth next) in
      Puts-by files laws tmp base
        (λ st. (write_nodes floats markup files depth (node p child next) st).0) _
        (printed floats markup depth (node p child next))
        (glue_four (tag_text floats markup tag) (printed floats markup (fitting depth + 1) child)
          (some (end_text floats markup depth (has_end floats markup tag child)))
          (printed floats markup depth next))
        whole

  pub write_channel-Puts :
      (channel_name : Text) (tree : Forest (Value F))
      → Puts files laws tmp base
          (λ st. (write_channel floats markup files channel_name tree st).0)
          (document floats markup channel_name tree)
  unfolding write_channel document
  write_channel-Puts channel_name tree =
      let nodes = write_nodes floats markup files 1 tree in
      let head = glue (some heading) (some (opening channel_name)) in
      let body = glue head (printed floats markup 1 tree) in
      let text = glue body (some closing) in
      let start = λ (st : S). seq (files.fputs heading st) (files.fputs (opening channel_name)) in
      let write = λ (st : S). (step (start st) tree nodes).0 in
      let finish = λ (st : S). seq (write st) (files.fputs closing) in
      let push = λ (st : S). seq (finish st) files.fflush in
      let headed =
        seq-Puts files laws tmp base (files.fputs heading) (files.fputs (opening channel_name))
          (some heading) (some (opening channel_name)) (fputs-Puts files laws tmp base heading)
          (fputs-Puts files laws tmp base (opening channel_name)) in
      let written =
        step-Puts files laws tmp base start tree nodes head (printed floats markup 1 tree) headed
          (write_nodes-Puts 1 tree) in
      let ended =
        seq-Puts files laws tmp base write (files.fputs closing) body (some closing) written
          (fputs-Puts files laws tmp base closing) in
      let flushed =
        seq-Puts files laws tmp base finish files.fflush text (some []) ended
          (fflush-Puts files laws tmp base) in
      let synced =
        seq-Puts files laws tmp base push files.fdatasync (glue text (some [])) (some []) flushed
          (fdatasync-Puts files laws tmp base) in
      Puts-by files laws tmp base (λ st. (write_channel floats markup files channel_name tree st).0)
        (glue (glue text (some [])) (some [])) (document floats markup channel_name tree)
        (channel_text heading (opening channel_name) closing (printed floats markup 1 tree)) synced
