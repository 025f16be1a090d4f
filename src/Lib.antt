-- ===== src/Lib.antt =====
-- A verification library for the YAML parser and the YAML emitter of this repository.
--
-- The program turns Go values and nodes into events (encode.go), and the emitter turns events into
-- text (internal/emitter). Emit appends an event to a queue, and while enough events wait it analyses
-- the first of them (analyze.go), and hands it to the handler of the current state (emit.go), which
-- writes with the functions of write.go and process.go and moves to another state. Two stacks, of
-- states and of indentation levels, follow the nesting of the document. The classes of bytes are
-- shared with the scanner (internal/yamlh/privateh.go).
--
-- In the other direction the scanner turns text into tokens and comments, and Parse turns these into
-- events, one a call (internal/parserc/parserc.go): the handler of the current state looks at the next
-- token, takes tokens, and pushes the state to which the parser returns behind a node. The decoder
-- builds nodes from the events (decode.go), and Resolve tells the tag and the value of a scalar. The
-- encoder makes events from nodes again (encode.go, with the constructors of apic.go).
--
-- Which file models which part:
--   Common           lists, byte strings, integers and Boolean tests that the rest shares
--   Chars            internal/yamlh/privateh.go: Width, Is_break and the other classes of bytes
--   Event            internal/yamlh/yamlh.go and internal/common/common.go: events, styles, directives
--   Token            internal/yamlh/yamlh.go: tokens and comments
--   Run              the monad of the parser, with the predicate that a call ends
--   Scanner          internal/parserc/scannerc.go: the escapes of double-quoted scalars
--   Resolve          internal/resolve/resolve.go: tags with their caches (Tags), Resolve (Value),
--                    EncodeBase64 (Base64)
--   Sorter           internal/sorter/sorter.go: the order of strings (Sorter) and of keys (Keys)
--   Node             yaml.go: Node with its kinds and styles, IsZero; ShortTag, LongTag, SetString (Tag)
--   NodeParser/State, Build, Collection  decode.go: the type parser, its state, the nodes that it makes
--                    for an event, and collections, documents and Parse
--   NodeParser/Pending, Shape, Memory  the invariant of that parser: the events before it, its nodes
--   Encoder/State, Scalar, Node  encode.go: the Encoder, over an interface for the emitter, and its
--                    methods on nodes with Encode and Close
--   Encoder/Replay, Alike, Drives, Mirror  the encoder over any emitter beside the same calls over one that
--                    keeps every event
--   Encoder/Writer   that interface filled by the emitter of internal/emitter, with a test of the way
--                    from events to nodes and back to text
--   Event/Make       apic.go: the constructors of events
--   Parser/State     the record YamlParser of internal/parserc/parser.go, and its errors
--   Parser/Tokens    parserc.go: peek_token, skip_token, the pending comments and the stem comment;
--                    Parser/Comments and Joined have what a token takes of them
--   Parser/Directives, Node, Block, Flow, Document  parserc.go: the handlers of the states
--   Parser/Machine   parserc.go: yaml_parser_state_machine and Parse
--   Parser/Grammar, Phrase  the grammar of events at the head of parserc.go: a machine with a stack of
--                    goals, and the productions
--   Parser/Stack     the invariant of the parser's stacks of states and marks
--   Emitter/State    the record Emitter of internal/emitter/emitter.go, and the monad of its methods
--   Emitter/Output   internal/emitter/emitter.go: put, write, writeBreak, readyToEmit, increaseIndent
--   Emitter/Write    internal/emitter/write.go, with child modules for comments (also of process.go)
--                    and for the plain, quoted and block scalars
--   Emitter/Analyze  internal/emitter/analyze.go, with analyzeScalar in a child module
--   Emitter/Node     internal/emitter/check.go, process.go and the node handlers of emit.go
--   Emitter/Document internal/emitter/emit.go: streams, documents and directives
--   Emitter/Collection internal/emitter/emit.go: flow and block sequences and mappings
--   Emitter/Machine  stateMachine of internal/emitter/emit.go and Emit of internal/emitter/emitter.go
--   Emitter/Samples  events and writers for tests, and runs of the whole emitter
-- The other modules under Resolve, Sorter, Node, NodeParser, Encoder, Parser and Emitter, and Chars/Text,
-- hold proofs, and the modules Examples their instances and further tests.
--
-- A method is a function from the state to an outcome: a value with the next state, an error with the
-- state that it leaves, a Go panic (an index or a slice out of range), or a loop out of fuel. Names
-- are those of the source in lower case with underscores, so that writeIndent is write_indent. A byte
-- is a natural number, an int that cannot be negative is one too, and an int that can is an integer.
-- An index is an option, which is missing where Go panics. The ints of the source do not overflow for
-- texts that fit in memory, and their width is not modelled.
--
-- The io.Writer is not part of the program: it is a function that tells, from what it has taken and a
-- chunk, whether it takes the chunk or stops with an error. A loop `for len(value) > 0` has the length
-- of the value as its fuel: each round that drops a character drops a byte or more, so that this is
-- enough on text. A character whose first byte has the width 0 makes the source loop for ever, and
-- the model run out of fuel. The loop of Emit has the length of the queue, whose head each round moves.
--
-- For the parser the scanner is the list of what it delivers: each token with the comments that the
-- scanner has queued since the token before, and an error behind the last. Any list is allowed, so that
-- nothing is assumed of the order of the tokens. The two loops of the parser, over directives and over
-- document ends, have the number of tokens still to be delivered as their fuel: each round takes one. A
-- queue with a head index is the list from that index on, and a stack has its top at the head.
--
-- What Resolve calls of Go's library (the parsers of numbers, the regular expression of floats, the
-- conversions and time.Parse) is a record of functions, Platform, and base64 is a function with its
-- length. The loop of EncodeBase64 has the length of the encoding as its fuel: each round writes a
-- byte or more. The sorter has the conversion of a string to runes, IsLetter, IsDigit and the
-- operations of float64 as functions, and a key is a sum of the kinds that reflection shows; an int64
-- that Less computes is a number below 2 ^ 64.
--
-- For the decoder the parser below is the list of the events that it returns, behind which it returns
-- an error. A node has an address on a heap, which is a function from addresses; a pointer that is
-- nil is missing, an empty Content is nil unless a flag says otherwise, and a map is a list with the
-- last entry first. Parse calls itself for the nodes below, so that it has fuel: each call and each
-- round of its loops takes an event at least, and more fuel than there are events is enough. The
-- encoder reads such a heap, and its fuel bounds how deep nodes nest. It emits into an interface with
-- the method Emit. What a call emits is told by an emitter that keeps every event, or refuses some,
-- and Encoder/Replay compares it with the call over any other emitter, which may panic: Encode does
-- so where Emit does. That Emit takes the events of a tree is not proved. ShortTag has fuel for
-- aliases that point to aliases. The package's map of short tags is a part of the state, and that of
-- long tags is one where the code reads it.
--
-- Not modelled: the rest of the scanner and the reader (internal/parserc), and the encoding and decoding
-- of Go values other than nodes, which work by reflection.
pub mod Common
pub mod Chars
pub mod Event
pub mod Run
pub mod Token
pub mod Scanner
pub mod Resolve
pub mod Sorter
pub mod Node
pub mod NodeParser
pub mod Encoder
pub mod Parser
pub mod Emitter
