-- ===== src/Emitter/Style.antt =====
-- What selectScalarStyle of internal/emitter/emit.go promises of the style that it selects.
use yaml.Common.{
  ℕ, ◌≡◌, ◌==◌, [], ◌∷◌, Bool, true, false, not, ◌&&◌, ◌||◌, arith, is_empty, is_nat, is_positive,
}
use yaml.Event.{
  Event, plain_scalar_style, single_quoted_scalar_style, literal_scalar_style, folded_scalar_style,
}
use yaml.Emitter.State.{Emitter, Error, when, fail, modify}
use yaml.Emitter.Node.{has_no_tag, selected_style, select_scalar_style}
use yaml.Emitter.Bind.{Ends, returns, raises, Ends-bind}

-- A plain scalar: the analysis allows it at the level, it is not empty in a flow collection or as a
-- key, and it is on one line as a key.
pub record PlainFits (e : Emitter) : Type 0 where
  pub in_flow : is_positive e.flow_level ≡ true → e.scalar_data.flow_plain_allowed ≡ true
  pub in_block : is_nat e.flow_level 0 ≡ true → e.scalar_data.block_plain_allowed ≡ true
  pub not_empty :
      is_empty e.scalar_data.value ≡ true
      → (is_positive e.flow_level || e.simple_key_context) ≡ false
  pub one_line : (e.simple_key_context && e.scalar_data.multiline) ≡ false

-- A literal or folded scalar: outside flow collections and keys.
pub record BlockFits (e : Emitter) : Type 0 where
  pub allowed : e.scalar_data.block_allowed ≡ true
  pub outside_flow : is_positive e.flow_level ≡ false
  pub not_key : e.simple_key_context ≡ false

-- What a style needs.
pub record Fits (e : Emitter) (style : ℕ) : Type 0 where
  pub plain : style ≡ plain_scalar_style → PlainFits e
  pub single_quoted :
      style ≡ single_quoted_scalar_style → e.scalar_data.single_quoted_allowed ≡ true
  pub literal : style ≡ literal_scalar_style → BlockFits e
  pub folded : style ≡ folded_scalar_style → BlockFits e

module _ (e : Emitter) (event : Event) where
  plain_fits : selected_style e event ≡ plain_scalar_style → PlainFits e
  unfolding selected_style
  plain_fits h = ground arith

  single_fits :
      selected_style e event ≡ single_quoted_scalar_style
      → e.scalar_data.single_quoted_allowed ≡ true
  unfolding selected_style
  single_fits h = ground arith

  literal_fits : selected_style e event ≡ literal_scalar_style → BlockFits e
  unfolding selected_style
  literal_fits h = ground arith

  folded_fits : selected_style e event ≡ folded_scalar_style → BlockFits e
  unfolding selected_style
  folded_fits h = ground arith

  -- Whatever style the event asks for, the style selected fits the context and the analysis of the
  -- value: a plain, single-quoted, literal or folded scalar is written only where it is allowed.
  selected_style-Fits : Fits e (selected_style e event)
  selected_style-Fits = record {
    plain = plain_fits;
    single_quoted = single_fits;
    literal = literal_fits;
    folded = folded_fits;
  }

guard-Ends :
    (b : Bool) (x : Error) (e : Emitter) {Q : Unit {0} → Emitter → Type 0}
    → Q tt e
    → Ends Q (when b (fail x) e)
guard-Ends true x e q = raises
guard-Ends false x e q = returns q

change-Ends :
    (b : Bool) (f : Emitter → Emitter) (e : Emitter) {Q : Unit {0} → Emitter → Type 0}
    → Q tt (f e)
    → Q tt e
    → Ends Q (when b (modify f) e)
change-Ends true f e p q = returns p
change-Ends false f e p q = returns q

-- What selectScalarStyle sets.
abbrev mark_tag : Emitter → Emitter
mark_tag e = record e { tag_data = record (e.tag_data) { handle = b'!' ∷ [] } }

abbrev set_style : ℕ → Emitter → Emitter
set_style style e = record e { scalar_data = record (e.scalar_data) { style = style } }

-- selectScalarStyle returns an error, or it sets a style that the analysis of the value and the
-- context allow: plain, single-quoted, literal and folded each only where their conditions hold.
pub select_scalar_style-Fits :
    (event : Event) (e : Emitter)
    → Ends (λ _ e'. Fits e e'.scalar_data.style) (select_scalar_style event e)
unfolding select_scalar_style
select_scalar_style-Fits event e =
    let fits = selected_style-Fits e event in
    let style = selected_style e event in
    let tag = has_no_tag e && not event.quoted_implicit && not (style == plain_scalar_style) in
    Ends-bind (when (has_no_tag e && not event.implicit && not event.quoted_implicit) (fail _)) _ e
      (guard-Ends _ _ e (
        Ends-bind (when tag (modify mark_tag)) (λ _. modify (set_style style)) e
          (change-Ends tag mark_tag e (returns fits) (returns fits))))
