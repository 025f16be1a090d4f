-- ===== src/Parser/Joined.antt =====
-- The comments that yaml_parser_unfold_comments joins to those of the parser.
use yaml.Common.{◌≡◌, refl, ◌∙◌, List, [], ◌∷◌, ◌++◌, map, append_assoc, Bytes}
use yaml.Token.{YamlComment}
use yaml.Parser.State.{Parser}
use yaml.Parser.Tokens.{joined, join}

-- The comments are joined to those of the parser, one after the other.
abbrev pub join_all : List YamlComment → Parser → Parser
join_all [] p = p
join_all (c ∷ cs) p = join_all cs (join c p)

-- The texts that are not empty, with a line break between each two.
abbrev pub some_texts : List Bytes → List Bytes
some_texts [] = []
some_texts ([] ∷ ls) = some_texts ls
some_texts ((c ∷ l) ∷ ls) = (c ∷ l) ∷ some_texts ls

abbrev pub with_breaks : List Bytes → Bytes
with_breaks [] = []
with_breaks (l ∷ []) = l
with_breaks (l ∷ m ∷ ls) = l ++ b'\n' ∷ with_breaks (m ∷ ls)

-- A comment of the parser, and the same part of the comments that are taken.
abbrev pub gathered : (YamlComment → Bytes) → Bytes → List YamlComment → Bytes
gathered part old cs = with_breaks (some_texts (old ∷ map part cs))

gathered-none : (old : Bytes) → with_breaks (some_texts (old ∷ [])) ≡ old
gathered-none [] = refl
gathered-none (c ∷ old) = refl

gathered-joined :
    (old new : Bytes) (ls : List Bytes)
    → with_breaks (some_texts (joined old new ∷ ls)) ≡ with_breaks (some_texts (old ∷ new ∷ ls))
unfolding joined
gathered-joined [] [] ls = refl
gathered-joined (o ∷ old) [] ls = refl
gathered-joined [] (c ∷ new) ls = refl
gathered-joined (o ∷ old) (c ∷ new) ls = go (some_texts ls)
  where
    go :
        (ms : List Bytes)
        → with_breaks (((o ∷ old) ++ b'\n' ∷ c ∷ new) ∷ ms)
          ≡ with_breaks ((o ∷ old) ∷ (c ∷ new) ∷ ms)
    go [] = refl
    go (m ∷ ms) = append_assoc (o ∷ old) (b'\n' ∷ c ∷ new) (b'\n' ∷ with_breaks (m ∷ ms))

-- The comments of the parser with those taken.
abbrev pub with_comments : List YamlComment → Parser → Parser
with_comments cs p = record p {
  head_comment = gathered (λ c. c.head) p.head_comment cs;
  line_comment = gathered (λ c. c.line) p.line_comment cs;
  foot_comment = gathered (λ c. c.foot) p.foot_comment cs;
}

pub join_all-with_comments :
    (cs : List YamlComment) (p : Parser) → join_all cs p ≡ with_comments cs p
join_all-with_comments [] p =
    rw (gathered-none p.head_comment, gathered-none p.line_comment, gathered-none p.foot_comment)
      refl
join_all-with_comments (c ∷ cs) p =
    join_all-with_comments cs (join c p)
    ∙ rw
        (
          gathered-joined p.head_comment c.head (map (λ c. c.head) cs),
          gathered-joined p.line_comment c.line (map (λ c. c.line) cs),
          gathered-joined p.foot_comment c.foot (map (λ c. c.foot) cs),
        )
        refl
