-- ===== src/Agent/Evicted.antt =====
-- What `enforce` (memgraphrag/agent/budget.py) leaves of a conversation.
use exeio_memgraphrag.Base.{
  ℕ, zero, suc, ℤ, List, [], ◌∷◌, ◌++◌, ◌+◌, ◌≤◌, ◌<◌, Bool, true, false, if◌then◌else◌, length,
  map, if_neg, ◌≡◌, ◌⊎◌, inl, inr, refl, sym, ap, ◌∙◌, arith, Bool-cases, append-nil, append_assoc,
}
use exeio_memgraphrag.Text.Defs.{Text-discrete}
use exeio_memgraphrag.Agent.Budget.{
  Content, absent, text, other, Message, Encoder, evicted_text, is_tool, has_evicted_text, fits,
  count_tokens, evict_from, enforce,
}

-- A tool result gives its content away; another message stays.
abbrev pub evict : Message → Message
evict m = if is_tool m then record m { content = text evicted_text } else m

-- The messages when the first `k` have been looked at.
abbrev pub evict_first : ℕ → List Message → List Message
evict_first zero messages = messages
evict_first (suc k) [] = []
evict_first (suc k) (m ∷ messages) = evict m ∷ evict_first k messages

-- Whether the content is written: that of a tool result which is not evicted yet.
abbrev pub writes : Message → ℕ
writes m = if is_tool m then (if has_evicted_text m.content then 0 else 1) else 0

abbrev pub writes_first : ℕ → List Message → ℕ
writes_first zero messages = 0
writes_first (suc k) [] = 0
writes_first (suc k) (m ∷ messages) = writes m + writes_first k messages

-- `after` is `messages` with the tool results among the first of them evicted, `evicted` of them
-- written, and no more of them than it takes: shorter runs do not fit, and this one does, or it is
-- all of the messages.
pub record IsEviction (encoder : Encoder) (ceiling : ℤ) (messages after : List Message)
    (evicted : ℕ) : Type 0 where
  pub looked_at : ℕ
  pub in_list : looked_at ≤ length messages
  pub oldest_first : after ≡ evict_first looked_at messages
  pub counted : evicted ≡ writes_first looked_at messages
  pub enough : (fits (count_tokens encoder after) ceiling ≡ true) ⊎ (looked_at ≡ length messages)
  pub needed :
      (k : ℕ) → k < looked_at → fits (count_tokens encoder (evict_first k messages)) ceiling ≡ false

pair :
    {xs ys : List Message} {n m : ℕ} → xs ≡ ys → n ≡ m → ◌≡◌ {A = List Message × ℕ} (xs, n) (ys, m)
pair p q = λ i. (p i, q i)

content_evicted : (c : Content) → has_evicted_text c ≡ true → c ≡ text evicted_text
unfolding has_evicted_text
content_evicted (text t) h = elim (Text-discrete t evicted_text) [
  | yes e ↦ ap text e
  | no n ↦ ground (arith, if_neg {C = Bool} (Text-discrete t evicted_text) n)
]
content_evicted absent h = cc
content_evicted (other s) h = cc

evict_again : (m : Message) → has_evicted_text m.content ≡ true → evict m ≡ m
evict_again m h = elim (Bool-cases (is_tool m)) [
  | inl tool ↦ rw tool (λ i. record m { content = sym (content_evicted m.content h) i })
  | inr kept ↦ rw kept
]

module _ (encoder : Encoder) (ceiling : ℤ) where
  -- What the loop makes of `messages` behind `seen`.
  record Evicting (seen messages : List Message) (evicted : ℕ) (r : List Message × ℕ) : Type 0 where
    pub rest : List Message
    pub count : ℕ
    pub returns : r ≡ (seen ++ rest, evicted + count)
    pub looked_at : ℕ
    pub in_list : looked_at ≤ length messages
    pub oldest_first : rest ≡ evict_first looked_at messages
    pub counted : count ≡ writes_first looked_at messages
    pub enough :
        (fits (count_tokens encoder (seen ++ rest)) ceiling ≡ true) ⊎ (looked_at ≡ length messages)
    pub needed :
        (k : ℕ)
        → k < looked_at
        → fits (count_tokens encoder (seen ++ evict_first k messages)) ceiling ≡ false

  evict_from-step :
      (seen messages : List Message) (m : Message) (evicted : ℕ)
      → fits (count_tokens encoder (seen ++ m ∷ messages)) ceiling ≡ false
      → evict_from encoder ceiling seen (m ∷ messages) evicted
        ≡ evict_from encoder ceiling (seen ++ evict m ∷ []) messages (evicted + writes m)
  unfolding evict_from
  evict_from-step seen messages m evicted h = elim (Bool-cases (is_tool m)) [
    | inl tool ↦ elim (Bool-cases (has_evicted_text m.content)) [
      | inl old ↦
          rw (evict_again m old, h, tool, old)
            (ap (evict_from encoder ceiling (seen ++ m ∷ []) messages) (omega arith))
      | inr new ↦ rw (h, tool, new)
    ]
    | inr kept ↦
        rw (h, kept) (ap (evict_from encoder ceiling (seen ++ m ∷ []) messages) (omega arith))
  ]

  evicting :
      (seen messages : List Message) (evicted : ℕ)
      → Evicting seen messages evicted (evict_from encoder ceiling seen messages evicted)
  evicting seen [] evicted = record {
    rest = [];
    count = 0;
    returns = unfold evict_from in pair (sym (append-nil seen)) (omega arith);
    looked_at = 0;
    in_list = omega arith;
    oldest_first = refl;
    counted = refl;
    enough = inr refl;
    needed = λ k h. ground arith;
  }
  evicting seen (m ∷ messages) evicted =
      elim (Bool-cases (fits (count_tokens encoder (seen ++ m ∷ messages)) ceiling)) [
        | inl fit ↦ record {
          rest = m ∷ messages;
          count = 0;
          returns = unfold evict_from in rw fit (pair refl (omega arith));
          looked_at = 0;
          in_list = omega arith;
          oldest_first = refl;
          counted = refl;
          enough = inl fit;
          needed = λ k h. ground arith;
        }
        | inr over ↦
            let r = evicting (seen ++ evict m ∷ []) messages (evicted + writes m) in
            record {
              rest = evict m ∷ r.rest;
              count = writes m + r.count;
              returns =
                  evict_from-step seen messages m evicted over
                  ∙ r.returns
                  ∙ pair (append_assoc seen (evict m ∷ []) r.rest) (omega arith);
              looked_at = suc r.looked_at;
              in_list = omega (arith, r.in_list);
              oldest_first = ap (λ xs. evict m ∷ xs) r.oldest_first;
              counted = ap (λ n. writes m + n) r.counted;
              enough = elim r.enough [
                | inl fit ↦ inl (rw (sym (append_assoc seen (evict m ∷ []) r.rest)) fit)
                | inr all ↦ inr (ap suc all)
              ];
              needed = elim [
                | zero ↦ λ h. over
                | suc k ↦ λ h.
                    rw (sym (append_assoc seen (evict m ∷ []) (evict_first k messages)))
                      (r.needed k (omega arith))
              ];
            }
      ]

  Evicting-IsEviction :
      (messages : List Message) (r : List Message × ℕ)
      → Evicting [] messages 0 r
      → IsEviction encoder ceiling messages r.0 r.1
  Evicting-IsEviction messages r e = record {
    looked_at = e.looked_at;
    in_list = e.in_list;
    oldest_first = ap (λ x. x.0) e.returns ∙ e.oldest_first;
    counted = ap (λ x. x.1) e.returns ∙ omega arith ∙ e.counted;
    enough = rw e.returns e.enough;
    needed = e.needed;
  }

  -- `enforce` looks at the messages from the oldest on, and no further than it takes: each tool
  -- result that it comes to has the placeholder as its content, no other message changes, and the
  -- rest of the list stays. What is left fits, or all messages have been looked at; no shorter run
  -- would do. The report gives the tokens before and after, and counts the results that lost their
  -- content.
  pub enforce-IsEviction :
      (messages : List Message)
      → let (after, report) = enforce encoder messages ceiling in
        IsEviction encoder ceiling messages after report.evicted
        × (report.tokens_before ≡ count_tokens encoder messages)
        × (report.tokens_after ≡ count_tokens encoder after)
  unfolding enforce
  enforce-IsEviction messages = elim (Bool-cases (fits (count_tokens encoder messages) ceiling)) [
    | inl fit ↦ rw fit (
      record {
        looked_at = 0;
        in_list = omega arith;
        oldest_first = refl;
        counted = refl;
        enough = inl fit;
        needed = λ k h. ground arith;
      },
      refl,
      refl,
    )
    | inr over ↦ rw over (
      Evicting-IsEviction messages (evict_from encoder ceiling [] messages 0)
          (evicting [] messages 0),
      refl,
      refl,
    )
  ]

-- A message without the content of a tool result.
abbrev pub conversation : Message → Message
conversation m = if is_tool m then record m { content = absent } else m

is_tool-content : (m : Message) (c : Content) → is_tool (record m { content = c }) ≡ is_tool m
unfolding is_tool
is_tool-content m c = refl

conversation-evict : (m : Message) → conversation (evict m) ≡ conversation m
conversation-evict m = elim (Bool-cases (is_tool m)) [
  | inl tool ↦ rw (tool, is_tool-content m (text evicted_text), tool)
  | inr kept ↦ rw (kept, kept)
]

conversation-evict_first :
    (k : ℕ) (messages : List Message)
    → map conversation (evict_first k messages) ≡ map conversation messages
conversation-evict_first zero messages = refl
conversation-evict_first (suc k) [] = refl
conversation-evict_first (suc k) (m ∷ messages) =
    λ i. conversation-evict m i ∷ conversation-evict_first k messages i

-- `enforce` drops no message and changes nothing of one but the content of a tool result: the
-- roles, the calls and the contents of the others are those before, in the same order.
pub enforce-conversation :
    (encoder : Encoder) (messages : List Message) (ceiling : ℤ)
    → map conversation (enforce encoder messages ceiling).0 ≡ map conversation messages
enforce-conversation encoder messages ceiling =
    let e = (enforce-IsEviction encoder ceiling messages).0 in
    ap (λ xs. map conversation xs) e.oldest_first ∙ conversation-evict_first e.looked_at messages
