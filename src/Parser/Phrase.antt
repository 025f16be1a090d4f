-- ===== src/Parser/Phrase.antt =====
-- The productions at the head of internal/parserc/parserc.go for the events of a goal, and the machine
-- of the grammar, which accepts what the productions derive.
use yaml.Common.{◌≡◌, refl, ap, ◌∙◌, subst, append_assoc, Option, none, some, List, [], ◌∷◌, ◌++◌}
use yaml.Event.{
  EventType, no_event, stream_start, stream_end, document_start, document_end, alias, scalar,
  sequence_start, sequence_end, mapping_start, mapping_end, tail_comment_event,
}
use yaml.Parser.Grammar.{
  Goal, whole_stream, documents, document_closing, node, items, pairs, accept, accept_node,
}

-- The events that a goal derives.
pub data Phrase : Goal → List EventType → Type 0 where
  stream : {ts : List EventType} → Phrase documents ts → Phrase whole_stream (stream_start ∷ ts)
  no_documents : Phrase documents (stream_end ∷ [])
  document :
      {ts us vs : List EventType}
      → Phrase node ts
      → Phrase document_closing us
      → Phrase documents vs
      → Phrase documents (document_start ∷ (ts ++ (us ++ vs)))
  closing : Phrase document_closing (document_end ∷ [])
  alias_node : Phrase node (alias ∷ [])
  scalar_node : Phrase node (scalar ∷ [])
  sequence_node : {ts : List EventType} → Phrase items ts → Phrase node (sequence_start ∷ ts)
  mapping_node : {ts : List EventType} → Phrase pairs ts → Phrase node (mapping_start ∷ ts)
  no_items : Phrase items (sequence_end ∷ [])
  item : {ts us : List EventType} → Phrase node ts → Phrase items us → Phrase items (ts ++ us)
  no_pairs : Phrase pairs (mapping_end ∷ [])
  pair :
      {ts us vs : List EventType}
      → Phrase node ts
      → Phrase node us
      → Phrase pairs vs
      → Phrase pairs (ts ++ (us ++ vs))

-- The events of goals, one after the other.
pub data Phrases : List Goal → List EventType → Type 0 where
  nothing : Phrases [] []
  phrase_first :
      {g : Goal} {gs : List Goal} {ts us : List EventType}
      → Phrase g ts
      → Phrases gs us
      → Phrases (g ∷ gs) (ts ++ us)

-- The goals behind the events, if they may come in this order.
abbrev pub accept_all : List Goal → List EventType → Option (List Goal)
accept_all gs [] = some gs
accept_all gs (t ∷ ts) = elim (accept gs t) [ none ↦ none | some gs' ↦ accept_all gs' ts ]

-- The goals that may be left derive the events.
abbrev After : Option (List Goal) → List EventType → Type 0
After r ts = elim r [ none ↦ ⊥ | some gs ↦ Phrases gs ts ]

module _ {gs : List Goal} where
  node_begins_item :
      {ts : List EventType} → Phrases (node ∷ items ∷ gs) ts → Phrases (items ∷ gs) ts
  node_begins_item (phrase_first {ts} n (phrase_first {ts = us} {us = vs} q rest)) =
      subst (Phrases (items ∷ gs)) (append_assoc ts us vs) (phrase_first (item n q) rest)

  nodes_begin_pair :
      {ts : List EventType} → Phrases (node ∷ node ∷ pairs ∷ gs) ts → Phrases (pairs ∷ gs) ts
  nodes_begin_pair
        (phrase_first {ts} n (phrase_first {ts = us} m (phrase_first {ts = vs} {us = ws} q rest))) =
      subst (Phrases (pairs ∷ gs)) (simp (append_assoc)) (phrase_first (pair n m q) rest)

  document_begins :
      {ts : List EventType}
      → Phrases (node ∷ document_closing ∷ documents ∷ gs) ts
      → Phrases (documents ∷ gs) (document_start ∷ ts)
  document_begins
        (phrase_first {ts} n (phrase_first {ts = us} m (phrase_first {ts = vs} {us = ws} q rest))) =
      subst (Phrases (documents ∷ gs)) (simp (append_assoc)) (phrase_first (document n m q) rest)

  items_make_node :
      {ts : List EventType} → Phrases (items ∷ gs) ts → Phrases (node ∷ gs) (sequence_start ∷ ts)
  items_make_node (phrase_first q rest) = phrase_first (sequence_node q) rest

  pairs_make_node :
      {ts : List EventType} → Phrases (pairs ∷ gs) ts → Phrases (node ∷ gs) (mapping_start ∷ ts)
  pairs_make_node (phrase_first q rest) = phrase_first (mapping_node q) rest

  documents_make_stream :
      {ts : List EventType}
      → Phrases (documents ∷ gs) ts
      → Phrases (whole_stream ∷ gs) (stream_start ∷ ts)
  documents_make_stream (phrase_first q rest) = phrase_first (stream q) rest

module _ {gs : List Goal} {ts : List EventType} where
  after_node : (t : EventType) → After (accept_node t gs) ts → Phrases (node ∷ gs) (t ∷ ts)
  after_node alias h = phrase_first alias_node h
  after_node scalar h = phrase_first scalar_node h
  after_node sequence_start h = items_make_node h
  after_node mapping_start h = pairs_make_node h
  after_node _ h = absurd h

  after_stream :
      (t : EventType)
      → After (accept (whole_stream ∷ gs) t) ts
      → Phrases (whole_stream ∷ gs) (t ∷ ts)
  after_stream stream_start h = documents_make_stream h
  after_stream _ h = absurd h

  after_document :
      (t : EventType) → After (accept (documents ∷ gs) t) ts → Phrases (documents ∷ gs) (t ∷ ts)
  after_document stream_end h = phrase_first no_documents h
  after_document document_start h = document_begins h
  after_document _ h = absurd h

  after_closing :
      (t : EventType)
      → After (accept (document_closing ∷ gs) t) ts
      → Phrases (document_closing ∷ gs) (t ∷ ts)
  after_closing document_end h = phrase_first closing h
  after_closing _ h = absurd h

module _ {gs : List Goal} {ts : List EventType} where
  after_item : (t : EventType) → After (accept (items ∷ gs) t) ts → Phrases (items ∷ gs) (t ∷ ts)
  after_item no_event h = node_begins_item (after_node no_event h)
  after_item stream_start h = node_begins_item (after_node stream_start h)
  after_item stream_end h = node_begins_item (after_node stream_end h)
  after_item document_start h = node_begins_item (after_node document_start h)
  after_item document_end h = node_begins_item (after_node document_end h)
  after_item alias h = node_begins_item (after_node alias h)
  after_item scalar h = node_begins_item (after_node scalar h)
  after_item sequence_start h = node_begins_item (after_node sequence_start h)
  after_item sequence_end h = phrase_first no_items h
  after_item mapping_start h = node_begins_item (after_node mapping_start h)
  after_item mapping_end h = node_begins_item (after_node mapping_end h)
  after_item tail_comment_event h = node_begins_item (after_node tail_comment_event h)

  after_pair : (t : EventType) → After (accept (pairs ∷ gs) t) ts → Phrases (pairs ∷ gs) (t ∷ ts)
  after_pair no_event h = nodes_begin_pair (after_node no_event h)
  after_pair stream_start h = nodes_begin_pair (after_node stream_start h)
  after_pair stream_end h = nodes_begin_pair (after_node stream_end h)
  after_pair document_start h = nodes_begin_pair (after_node document_start h)
  after_pair document_end h = nodes_begin_pair (after_node document_end h)
  after_pair alias h = nodes_begin_pair (after_node alias h)
  after_pair scalar h = nodes_begin_pair (after_node scalar h)
  after_pair sequence_start h = nodes_begin_pair (after_node sequence_start h)
  after_pair sequence_end h = nodes_begin_pair (after_node sequence_end h)
  after_pair mapping_start h = nodes_begin_pair (after_node mapping_start h)
  after_pair mapping_end h = phrase_first no_pairs h
  after_pair tail_comment_event h = nodes_begin_pair (after_node tail_comment_event h)

  after_event :
      (g : Goal) (t : EventType) → After (accept (g ∷ gs) t) ts → Phrases (g ∷ gs) (t ∷ ts)
  after_event whole_stream t h = after_stream t h
  after_event documents t h = after_document t h
  after_event document_closing t h = after_closing t h
  after_event node t h = after_node t h
  after_event items t h = after_item t h
  after_event pairs t h = after_pair t h

after_goals :
    (r : Option (List Goal)) (ts : List EventType)
    → ((gs : List Goal) → accept_all gs ts ≡ some [] → Phrases gs ts)
    → elim r [ none ↦ none | some gs ↦ accept_all gs ts ] ≡ some []
    → After r ts
after_goals none ts f e = cc
after_goals (some gs) ts f e = f gs e

-- What the machine accepts, the productions derive.
pub accept_all-Phrases :
    (gs : List Goal) (ts : List EventType) → accept_all gs ts ≡ some [] → Phrases gs ts
accept_all-Phrases [] [] e = nothing
accept_all-Phrases (g ∷ gs) [] e = cc
accept_all-Phrases [] (t ∷ ts) e = cc
accept_all-Phrases (g ∷ gs) (t ∷ ts) e =
    after_event g t (after_goals (accept (g ∷ gs) t) ts (λ gs'. accept_all-Phrases gs' ts) e)

module _ (gs : List Goal) where
  accept_all-item :
      {ts : List EventType} (us : List EventType)
      → Phrase node ts
      → accept_all (items ∷ gs) (ts ++ us) ≡ accept_all (node ∷ items ∷ gs) (ts ++ us)
  accept_all-item us alias_node = refl
  accept_all-item us scalar_node = refl
  accept_all-item us (sequence_node q) = refl
  accept_all-item us (mapping_node q) = refl

  accept_all-pair :
      {ts : List EventType} (us : List EventType)
      → Phrase node ts
      → accept_all (pairs ∷ gs) (ts ++ us) ≡ accept_all (node ∷ node ∷ pairs ∷ gs) (ts ++ us)
  accept_all-pair us alias_node = refl
  accept_all-pair us scalar_node = refl
  accept_all-pair us (sequence_node q) = refl
  accept_all-pair us (mapping_node q) = refl

append_assoc_all :
    (ts us vs ws : List EventType) → (ts ++ (us ++ vs)) ++ ws ≡ ts ++ (us ++ (vs ++ ws))
append_assoc_all ts us vs ws = simp (append_assoc)

-- The machine goes through the events of a goal to what is behind it.
pub accept_all-Phrase :
    {g : Goal} {ts : List EventType} (gs : List Goal) (us : List EventType)
    → Phrase g ts
    → accept_all (g ∷ gs) (ts ++ us) ≡ accept_all gs us
accept_all-Phrase gs us (stream q) = accept_all-Phrase gs us q
accept_all-Phrase gs us no_documents = refl
accept_all-Phrase gs us (document {ts} {us = vs} {vs = ws} n m q) =
    ap (accept_all (node ∷ document_closing ∷ documents ∷ gs)) (append_assoc_all ts vs ws us)
    ∙ accept_all-Phrase (document_closing ∷ documents ∷ gs) (vs ++ (ws ++ us)) n
    ∙ accept_all-Phrase (documents ∷ gs) (ws ++ us) m
    ∙ accept_all-Phrase gs us q
accept_all-Phrase gs us closing = refl
accept_all-Phrase gs us alias_node = refl
accept_all-Phrase gs us scalar_node = refl
accept_all-Phrase gs us (sequence_node q) = accept_all-Phrase gs us q
accept_all-Phrase gs us (mapping_node q) = accept_all-Phrase gs us q
accept_all-Phrase gs us no_items = refl
accept_all-Phrase gs us (item {ts} {us = vs} n q) =
    ap (accept_all (items ∷ gs)) (append_assoc ts vs us)
    ∙ accept_all-item gs (vs ++ us) n
    ∙ accept_all-Phrase (items ∷ gs) (vs ++ us) n
    ∙ accept_all-Phrase gs us q
accept_all-Phrase gs us no_pairs = refl
accept_all-Phrase gs us (pair {ts} {us = vs} {vs = ws} n m q) =
    ap (accept_all (pairs ∷ gs)) (append_assoc_all ts vs ws us)
    ∙ accept_all-pair gs (vs ++ (ws ++ us)) n
    ∙ accept_all-Phrase (node ∷ pairs ∷ gs) (vs ++ (ws ++ us)) n
    ∙ accept_all-Phrase (pairs ∷ gs) (ws ++ us) m
    ∙ accept_all-Phrase gs us q
