-- ===== src/Agent/Harmony.antt =====
-- memgraphrag/agent/harmony.py: the filter that keeps the final channel of a streamed answer. The
-- classes of white space and of word characters of Python's `re` are parameters.
use exeio_memgraphrag.Base.{
  ℕ, zero, suc, List, [], ◌∷◌, ◌++◌, ◌+◌, Bool, true, false, not, ◌&&◌, ◌||◌, if◌then◌else◌, leb,
  ◌==◌, length, map, none, some, Option,
}
use exeio_memgraphrag.Text.Defs.{Text, codes, lstrip, strip}
use exeio_memgraphrag.Text.Find.{starts_with, find, has_text, take, drop, concat}

abbrev pub tagged_final : Text
tagged_final = codes "<|channel|>final<|message|>"

abbrev pub untagged_final : Text
untagged_final = codes "assistantfinal"

abbrev pub probe_chars : ℕ
probe_chars = 24

abbrev pub mark : Text
mark = codes "<|"

pub data State : Type 0 where
  deciding : State
  passthrough : State
  waiting : State
  emitting : State
  closed : State

-- The separator is empty, `tagged_final` or `untagged_final`.
pub data Separator : Type 0 where
  unset : Separator
  tagged : Separator
  untagged : Separator

abbrev pub separator_text : Separator → Text
separator_text unset = []
separator_text tagged = tagged_final
separator_text untagged = untagged_final

pub record HarmonyFilter : Type 0 where
  pub buffer : Text
  pub state : State
  pub separator : Separator

abbrev pub new_filter : HarmonyFilter
new_filter = record { buffer = []; state = deciding; separator = unset }

-- `HarmonyFilter.filtered`
abbrev pub filtered : HarmonyFilter → Bool
filtered f = elim f.separator [
  | unset ↦ false
  | _ ↦ elim f.state [ deciding ↦ false | passthrough ↦ false | _ ↦ true ]
]

-- The buffer without a `<` at its end, and that `<`.
unfoldable pub split_hold : Text → Text × Text
split_hold [] = ([], [])
split_hold (c ∷ []) = if c == b'<' then ([], c ∷ []) else (c ∷ [], [])
split_hold (c ∷ d ∷ buffer) = let (out, held) = split_hold (d ∷ buffer) in (c ∷ out, held)

-- The end of `_release`: what is emitted, and what is held back.
abbrev pub release_held : HarmonyFilter → HarmonyFilter × Text
release_held f = let (out, held) = split_hold f.buffer in (record f { buffer = held }, out)

unfoldable pub release : HarmonyFilter → HarmonyFilter × Text
unfolding split_hold
release f = elim f.state [
  | emitting ↦ elim f.separator [
    | tagged ↦ elim (find mark f.buffer) [
      | some cut ↦ (record f { buffer = []; state = closed }, take cut f.buffer)
      | none ↦ release_held f
    ]
    | _ ↦ release_held f
  ]
  | _ ↦ release_held f
]

module _ (is_space is_word : ℕ → Bool) where
  -- the pattern `name(?=\S)` at the start of the text
  unfoldable pub opens_with : Text → Text → Bool
  opens_with [] [] = false
  opens_with [] (d ∷ text) = not (is_space d)
  opens_with (c ∷ name) [] = false
  opens_with (c ∷ name) (d ∷ text) = c == d && opens_with name text

  -- `_UNTAGGED_OPEN.match`
  unfoldable pub untagged_open : Text → Bool
  unfolding opens_with
  untagged_open buffer =
      opens_with (codes "analysis") buffer || opens_with (codes "commentary") buffer

  unfoldable pub decide : HarmonyFilter → HarmonyFilter
  unfolding has_text untagged_open
  decide f =
      if has_text tagged_final f.buffer || has_text mark f.buffer
      then record f { separator = tagged; state = waiting }
      else if untagged_open f.buffer
      then record f { separator = untagged; state = waiting }
      else if leb probe_chars (length f.buffer)
      then record f { state = passthrough }
      else f

  -- The part of `feed` for a stream that is decided.
  unfoldable pub feed_decided : HarmonyFilter → HarmonyFilter × Text
  unfolding release
  feed_decided f = elim f.state [
    | deciding ↦ (f, [])
    | waiting ↦ elim (find (separator_text f.separator) f.buffer) [
      | none ↦ (f, [])
      | some i ↦ release (record f {
        buffer = drop (i + length (separator_text f.separator)) f.buffer;
        state = emitting;
      })
    ]
    | _ ↦ release f
  ]

  unfoldable pub feed : HarmonyFilter → Text → HarmonyFilter × Text
  unfolding decide feed_decided
  feed f text = elim f.state [
    | closed ↦ (f, [])
    | deciding ↦ feed_decided (decide (record f { buffer = f.buffer ++ text }))
    | _ ↦ feed_decided (record f { buffer = f.buffer ++ text })
  ]

  -- The length of the tag whose inside begins here, past its `<|`.
  unfoldable pub tag_inside : Text → Option ℕ
  tag_inside [] = none
  tag_inside (c ∷ text) =
      let rest = tag_inside text in
      if starts_with (codes "|>") (c ∷ text)
      then some 2
      else if c == b'|' || c == b'>'
      then none
      else elim rest [ none ↦ none | some n ↦ some (suc n) ]

  -- `_TAG.split(text)`: the first argument counts the characters of a tag that are left to pass.
  unfoldable pub split_tags : ℕ → Text → Text → List Text
  unfolding tag_inside
  split_tags skip part [] = part ∷ []
  split_tags (suc skip) part (c ∷ text) = split_tags skip part text
  split_tags zero part (c ∷ text) =
      let plain = split_tags zero (part ++ c ∷ []) text in
      if starts_with mark (c ∷ text)
      then elim (tag_inside (drop 1 text)) [
        | none ↦ plain
        | some n ↦ part ∷ split_tags (suc n) [] text
      ]
      else plain

  -- the text behind `name\b\s*`, if it begins so
  unfoldable pub behind_name : Text → Text → Option Text
  unfolding lstrip
  behind_name [] [] = some []
  behind_name [] (d ∷ text) = if is_word d then none else some (lstrip is_space (d ∷ text))
  behind_name (c ∷ name) [] = none
  behind_name (c ∷ name) (d ∷ text) =
      let rest = behind_name name text in if c == d then rest else none

  -- `_CHANNEL_NAME.sub("", chunk)`
  unfoldable pub drop_channel_name : Text → Text
  unfolding behind_name
  drop_channel_name chunk = elim (behind_name (codes "analysis") chunk) [
    | some text ↦ text
    | none ↦ elim (behind_name (codes "final") chunk) [
      | some text ↦ text
      | none ↦ elim (behind_name (codes "commentary") chunk) [ some text ↦ text | none ↦ chunk ]
    ]
  ]

  unfoldable pub strip_scaffolding : Text → Text
  unfolding split_tags drop_channel_name
  strip_scaffolding text = strip is_space (concat (map drop_channel_name (split_tags zero [] text)))

  unfoldable pub flush : HarmonyFilter → HarmonyFilter × Text
  unfolding strip_scaffolding
  flush f = elim f.state [
    | closed ↦ (f, [])
    | waiting ↦ (record f { buffer = []; state = closed }, strip_scaffolding f.buffer)
    | _ ↦ (record f { buffer = []; state = closed }, f.buffer)
  ]

  -- What the user sees of a stream: each chunk is fed, then the filter is flushed.
  unfoldable pub stream : HarmonyFilter → List Text → Text
  unfolding feed flush
  stream f [] = (flush f).1
  stream f (chunk ∷ chunks) = let (f', out) = feed f chunk in out ++ stream f' chunks
