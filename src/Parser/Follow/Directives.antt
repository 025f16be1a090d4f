-- ===== src/Parser/Follow/Directives.antt =====
-- Directives are read within the tokens that the scanner delivers, and leave the stacks as they are.
use yaml.Common.{
  ℕ, zero, suc, ◌≤◌, ◌≡◌, refl, ap, Bool, true, false, not, ◌&&◌, Option, none, some, List, [], ◌∷◌,
  length, codes, is_nat, arith,
}
use yaml.Event.{Position, VersionDirective, TagDirective, default_tag_directives}
use yaml.Token.{YamlToken, ◌is_token◌, version_directive_token, document_end_token}
use yaml.Run.{◌>>◌, pure, when, Ends, returns, raises, Ends-bind, Ends-if, Ends-either}
use yaml.Parser.State.{Parser, ParserState, Delivery, fail_at}
use yaml.Parser.Tokens.{peek_token, next_token}
use yaml.Parser.Directives.{
  has_handle, append_tag_directive, Directives, is_some, read_version, read_tag_directive,
  read_directive, is_directive, read_directives, append_defaults, process_directives,
}
use yaml.Parser.Document.{skip_document_ends}
use yaml.Parser.Stack.{At}
use yaml.Parser.Steps.{core, Over, Over-core, peek_token-Over, next_token-shorter}

append_tag_directive-core :
    (d : TagDirective) (dup : Bool) (mark : Position) (p : Parser)
    → Ends (λ _ q. core q ≡ core p) (append_tag_directive d dup mark p)
unfolding append_tag_directive fail_at
append_tag_directive-core d dup mark p =
    Ends-if (has_handle d.handle p.tag_directives) _ _ p
      (λ _. Ends-if dup _ _ p (λ _. returns refl) (λ _. raises)) (λ _. returns refl)

read_directive-core :
    (token : YamlToken) (found : Directives) (p : Parser)
    → Ends (λ _ q. core q ≡ core p) (read_directive token found p)
unfolding read_directive read_version read_tag_directive fail_at
read_directive-core token (version, tags) p =
    Ends-if (token.token_type is_token version_directive_token) _ _ p
      (λ _. version_case version (not (is_nat token.major 1 && is_nat token.minor 1)))
      (λ _.
        Ends-bind
          (append_tag_directive (record { handle = token.value; prefix = token.prefix }) false
            token.start_mark)
          _ p
          (append_tag_directive-core (record { handle = token.value; prefix = token.prefix }) false
            token.start_mark p)
          (λ _ q e. returns e))
  where
    version_case :
        (v : Option VersionDirective) (b : Bool)
        → Ends {A = Directives}
            (λ _ q. core q ≡ core p)
            ((do
              when
                  (is_some v)
                  (fail_at (codes "found duplicate %YAML directive") token.start_mark.line 0)
              when b (fail_at (codes "found incompatible YAML document") token.start_mark.line 0)
              pure (some (record { major = token.major; minor = token.minor }), tags))
              p)
    version_case none true = raises
    version_case none false = returns refl
    version_case (some v) b = raises

no_deliveries : (ds : List Delivery) → length ds ≤ 0 → ds ≡ []
no_deliveries [] h = refl
no_deliveries (d ∷ ds) h = absurd (omega (arith, h))

module _ {s : ParserState} {K : List ParserState} {ms : List Position} where
  read_directives-Over :
      (fuel : ℕ) (token : YamlToken) (found : Directives) {p : Parser}
      → length p.deliveries ≤ fuel
      → Over s K ms p
      → Ends (λ _. Over s K ms) (read_directives fuel token found p)
  unfolding read_directives
  read_directives-Over zero token found {p} h o = absurd (o.there (no_deliveries p.deliveries h))
  read_directives-Over (suc fuel) token found {p} h o =
      Ends-either (is_directive token)
        (λ _.
          Ends-bind (read_directive token found) _ p (read_directive-core token found p)
            (λ found' q e.
              Ends-bind next_token _ q (next_token-shorter (Over-core e o)) (λ token' r (o', lt).
                let kept : length q.deliveries ≡ length p.deliveries =
                  ap (λ (x : Parser). length x.deliveries) e in
                read_directives-Over fuel token' found' (omega (arith, h, lt, kept)) o')))
        (λ _. returns o)

  append_defaults-Over :
      (ds : List TagDirective) (mark : Position) {p : Parser}
      → Over s K ms p
      → Ends (λ _. Over s K ms) (append_defaults ds mark p)
  unfolding append_defaults
  append_defaults-Over [] mark o = returns o
  append_defaults-Over (d ∷ ds) mark {p} o =
      Ends-bind (append_tag_directive d true mark) _ p (append_tag_directive-core d true mark p)
        (λ _ q e. append_defaults-Over ds mark (Over-core e o))

  pub process_directives-Over :
      {p : Parser} → At s K ms p → Ends (λ _. Over s K ms) (process_directives p)
  unfolding process_directives
  process_directives-Over {p} a = Ends-bind peek_token _ p (peek_token-Over a) (λ token q o.
      Ends-bind (read_directives (length q.deliveries) token (none, [])) _ q
        (read_directives-Over (length q.deliveries) token (none, []) (omega arith) o)
        (λ r q' o'.
          Ends-bind (append_defaults default_tag_directives r.1.start_mark) _ q'
            (append_defaults-Over default_tag_directives r.1.start_mark o')
            (λ _ q'' o''. returns o'')))

  pub skip_document_ends-Over :
      (fuel : ℕ) (token : YamlToken) {p : Parser}
      → length p.deliveries ≤ fuel
      → Over s K ms p
      → Ends (λ _. Over s K ms) (skip_document_ends fuel token p)
  unfolding skip_document_ends
  skip_document_ends-Over zero token {p} h o = absurd (o.there (no_deliveries p.deliveries h))
  skip_document_ends-Over (suc fuel) token {p} h o =
      Ends-either (token.token_type is_token document_end_token)
        (λ _.
          Ends-bind next_token _ p (next_token-shorter o)
            (λ token' q (o', lt). skip_document_ends-Over fuel token' (omega (arith, h, lt)) o'))
        (λ _. returns o)
