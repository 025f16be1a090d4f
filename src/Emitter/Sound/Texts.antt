-- ===== src/Emitter/Sound/Texts.antt =====
-- The writers of comments and tags, and the handlers of pending comments, end on text.
use yaml.Common.{Bool, Bytes, refl}
use yaml.Chars.Text.{Text}
use yaml.Emitter.State.{Emitter}
use yaml.Emitter.Write.{write_tag_content}
use yaml.Emitter.Write.Comment.{
  write_comment, process_head_comment, process_line_comment, process_foot_comment,
}
use yaml.Emitter.Bind.{Ends}
use yaml.Emitter.Sound.{Sound, stem, Kept, Any}
use yaml.Emitter.Sound.Comment.{
  write_comment-Keeps, process_head_comment-Keeps, process_line_comment-Keeps,
  process_foot_comment-Keeps,
}
use yaml.Emitter.Sound.Scalar.{write_tag_content-Keeps}

-- On text, with text for the pending comments, writeComment neither panics nor loops for ever: it
-- returns an error, or it ends with the comments still text and nothing changed but comments,
-- position and layout flags.
pub write_comment-Ends :
    (comment : Bytes) (e : Emitter)
    → Text comment
    → Sound e
    → Ends (Kept (stem e) Any) (write_comment comment e)
write_comment-Ends comment e t s = write_comment-Keeps comment t e s refl

-- On text, with text for the pending comments, writeTagContent neither panics nor loops for ever: it
-- returns an error, or it ends with the comments still text and nothing changed but comments,
-- position and layout flags.
pub write_tag_content-Ends :
    (suffix : Bytes) (need_whitespace : Bool) (e : Emitter)
    → Text suffix
    → Sound e
    → Ends (Kept (stem e) Any) (write_tag_content suffix need_whitespace e)
write_tag_content-Ends suffix w e t s = write_tag_content-Keeps suffix w t e s refl

-- With text for the pending comments, none of processHeadComment, processLineComment and
-- processFootComment panics or loops for ever: each returns an error, or it ends with the comments
-- still text and nothing changed but comments, position and layout flags.
pub process_comments-End :
    (e : Emitter)
    → Sound e
    → Ends (Kept (stem e) Any) (process_head_comment e)
      × Ends (Kept (stem e) Any) (process_line_comment e)
      × Ends (Kept (stem e) Any) (process_foot_comment e)
process_comments-End e s = (
  process_head_comment-Keeps e s refl,
  process_line_comment-Keeps e s refl,
  process_foot_comment-Keeps e s refl,
)
