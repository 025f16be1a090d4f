-- ===== src/Emitter/Sound/Properties.antt =====
-- processAnchor and processTag of internal/emitter/process.go end on text.
use yaml.Common.{
  true, false, refl, sym, subst, not, ◌&&◌, ap, Option, none, some, [], ◌∷◌, Bytes, is_empty, codes,
  if◌then◌else◌,
}
use yaml.Chars.Text.{Text}
use yaml.Emitter.State.{Emitter, done, ◌>>◌}
use yaml.Emitter.Write.{write_indicator, write_anchor}
use yaml.Emitter.Node.{process_anchor, write_tag, process_tag}
use yaml.Emitter.Bind.{Ends}
use yaml.Emitter.Sound.{Sound, stem, Kept, Any, Keeps, Meets-bind, Keeps-when, Meets-pure}
use yaml.Emitter.Sound.Write.{write_indicator-Keeps, write_anchor-Keeps, write_tag_handle-Keeps}
use yaml.Emitter.Sound.Comment.{if-Meets}
use yaml.Emitter.Sound.Scalar.{write_tag_content-Keeps}

module _ {k : Emitter} where
  write_mark-Keeps :
      (mark : Bytes) (o : Option Bytes)
      → Keeps k (elim o [
        | none ↦ done
        | some anchor ↦ (write_indicator mark true false false >> write_anchor anchor)
      ])
  write_mark-Keeps mark none = Meets-pure tt
  write_mark-Keeps mark (some anchor) =
      Meets-bind (write_indicator-Keeps mark true false false) (λ _ _. write_anchor-Keeps anchor)

  process_anchor-Keeps : Keeps k process_anchor
  unfolding process_anchor
  process_anchor-Keeps e s p =
      write_mark-Keeps ((if e.anchor_data.is_alias then b'*' else b'&') ∷ []) e.anchor_data.anchor e
        s p

  write_tag-Keeps : (handle suffix : Bytes) → Text suffix → Keeps k (write_tag handle suffix)
  unfolding write_tag
  write_tag-Keeps handle suffix t =
      if-Meets (not (is_empty handle))
        (Meets-bind (write_tag_handle-Keeps handle)
          (λ _ _. Keeps-when (not (is_empty suffix)) (write_tag_content-Keeps suffix false t)))
        (Meets-bind (write_indicator-Keeps (codes "!<") true false false) (λ _ _.
          Meets-bind (write_tag_content-Keeps suffix false t)
            (λ _ _. write_indicator-Keeps (codes ">") false false false)))

  process_tag-Keeps : Text k.tag_data.suffix → Keeps k process_tag
  unfolding process_tag
  process_tag-Keeps t e s p =
      Keeps-when (not (is_empty e.tag_data.handle && is_empty e.tag_data.suffix))
        (write_tag-Keeps e.tag_data.handle e.tag_data.suffix
          (subst Text (sym (ap (λ x. x.tag_data.suffix) p)) t))
        e s p

-- With text for the pending comments and for the suffix of the tag, neither processAnchor nor
-- processTag panics or loops for ever: each returns an error, or it ends with the comments still
-- text and nothing changed but comments, position and layout flags.
pub process_properties-End :
    (e : Emitter)
    → Sound e
    → Text e.tag_data.suffix
    → Ends (Kept (stem e) Any) (process_anchor e) × Ends (Kept (stem e) Any) (process_tag e)
process_properties-End e s t = (process_anchor-Keeps e s refl, process_tag-Keeps t e s refl)
