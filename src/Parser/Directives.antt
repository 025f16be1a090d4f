-- ===== src/Parser/Directives.antt =====
-- The directives of a document, in internal/parserc/parserc.go.
use yaml.Common.{
  ℕ, zero, suc, Bool, true, false, not, ◌&&◌, ◌||◌, Option, none, some, List, [], ◌∷◌, ◌++◌, Bytes,
  bytes_eq, codes, length, is_nat, if◌then◌else◌,
}
use yaml.Event.{Position, VersionDirective, TagDirective, default_tag_directives}
use yaml.Token.{YamlToken, ◌is_token◌, version_directive_token, tag_directive_token}
use yaml.Run.{Outcome, ok, exhausted, ◌>>=◌, ◌>>◌, pure, get, modify, when}
use yaml.Parser.State.{Parser, M, fail_at}
use yaml.Parser.Tokens.{peek_token, next_token}

-- Whether one of the directives has the handle.
unfoldable pub has_handle : Bytes → List TagDirective → Bool
has_handle handle [] = false
has_handle handle (d ∷ ds) = bytes_eq handle d.handle || has_handle handle ds

-- yaml_parser_append_tag_directive
unfoldable pub append_tag_directive : TagDirective → Bool → Position → M (Unit {0})
unfolding has_handle
append_tag_directive d allow_duplicates mark = do
  p ← get
  if has_handle d.handle p.tag_directives
      then (if allow_duplicates
          then pure tt
          else fail_at (codes "found duplicate %TAG directive") mark.line 0)
      else modify (λ p. record p { tag_directives = p.tag_directives ++ d ∷ [] })

-- The variables `version_directive` and `tag_directives`.
abbrev pub Directives : Type 0
Directives = Option VersionDirective × List TagDirective

abbrev pub is_some : Option VersionDirective → Bool
is_some none = false
is_some (some v) = true

-- A %YAML directive.
unfoldable pub read_version : YamlToken → Directives → M Directives
read_version token (version, tags) = do
  when (is_some version) (fail_at (codes "found duplicate %YAML directive") token.start_mark.line 0)
  when (not (is_nat token.major 1 && is_nat token.minor 1))
      (fail_at (codes "found incompatible YAML document") token.start_mark.line 0)
  pure (some (record { major = token.major; minor = token.minor }), tags)

-- A %TAG directive.
unfoldable pub read_tag_directive : YamlToken → Directives → M Directives
unfolding append_tag_directive
read_tag_directive token (version, tags) = do
  let d : TagDirective = record { handle = token.value; prefix = token.prefix }
  append_tag_directive d false token.start_mark
  pure (version, tags ++ d ∷ [])

unfoldable pub read_directive : YamlToken → Directives → M Directives
unfolding read_version read_tag_directive
read_directive token found =
    if token.token_type is_token version_directive_token
    then read_version token found
    else read_tag_directive token found

abbrev pub is_directive : YamlToken → Bool
is_directive token =
    token.token_type is_token version_directive_token
    || token.token_type is_token tag_directive_token

-- The loop over the directives. A round takes a token, so that the tokens that the scanner still
-- delivers bound the rounds. It ends with the token behind the directives.
unfoldable pub read_directives : ℕ → YamlToken → Directives → M (Directives × YamlToken)
unfolding read_directive next_token
read_directives zero token found p = if is_directive token then exhausted else ok (found, token) p
read_directives (suc fuel) token found p =
    let round : Outcome Parser _ (Directives × YamlToken) =
      (do
        found' ← read_directive token found
        token' ← next_token
        read_directives fuel token' found')
        p in
    if is_directive token then round else ok (found, token) p

unfoldable pub append_defaults : List TagDirective → Position → M (Unit {0})
unfolding append_tag_directive
append_defaults [] mark = pure tt
append_defaults (d ∷ ds) mark = do append_tag_directive d true mark; append_defaults ds mark

-- yaml_parser_process_directives, with what it stores in its references as the result.
unfoldable pub process_directives : M Directives
unfolding peek_token read_directives append_defaults
process_directives = do
  token ← peek_token
  p ← get
  (found, token') ← read_directives (length p.deliveries) token (none, [])
  append_defaults default_tag_directives token'.start_mark
  pure found
