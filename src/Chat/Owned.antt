-- ===== src/Chat/Owned.antt =====
-- An owner's threads under the calls of others (memgraphrag/chat/store.py), and a message that is added.
use exeio_memgraphrag.Base.{
  ℕ, List, [], ◌∷◌, Bool, Option, none, some, Result, ok, raise, ◌≡◌, ◌≢◌, refl, sym, ap, ◌∙◌,
  subst, arith, Option-cases, inl, inr,
}
use exeio_memgraphrag.Base.Dict.{get, put, pop, get-put, get-pop}
use exeio_memgraphrag.Text.Defs.{Text, Text-discrete}
use exeio_memgraphrag.Chat.Store.{
  Changes, if_owned, owned_by, get_thread, create_thread, change_thread, update_found,
  update_thread, delete_found, delete_thread, messages_of, append_message, add_checked, add_found,
  add_message, messages_if, list_messages,
}
use exeio_memgraphrag.Chat.Thread.{ChatMessage, ChatThread, ChatStore, check_role}

module _ {V : Type 0} where
  pub get-put_other :
      (k j : Text) (v : V) (d : List (Text × V))
      → k ≢ j
      → get Text-discrete j (put Text-discrete k v d) ≡ get Text-discrete j d
  get-put_other k j v d other = ground (arith, get-put Text-discrete k j v d, other)

  pub get-put_same :
      (k : Text) (v : V) (d : List (Text × V))
      → get Text-discrete k (put Text-discrete k v d) ≡ some v
  get-put_same k v d = ground (arith, get-put Text-discrete k k v d)

  get-pop_other :
      (k j : Text) (d : List (Text × V))
      → k ≢ j
      → get Text-discrete j (pop Text-discrete k d) ≡ get Text-discrete j d
  get-pop_other k j d other = ground (arith, get-pop Text-discrete k j d, other)

  get-pop_same :
      (k : Text) (d : List (Text × V)) → get Text-discrete k (pop Text-discrete k d) ≡ none
  get-pop_same k d = ground (arith, get-pop Text-discrete k k d)

-- A call that may change the store; the identifier and the time that it makes come with it.
pub data ChatCall (J : Type 0) : Type 0 where
  create_call : Text → ℕ → Option Text → Option Text → List (Text × J) → ChatCall J
  update_call : Text → ℕ → Changes J → ChatCall J
  delete_call : Text → ChatCall J
  add_call : Text → ℕ → Text → Text → Text → List J → ChatCall J

-- What the owner sees of a thread is the same in both stores.
abbrev pub IsSame : {J : Type 0} → Text → Text → ChatStore J → ChatStore J → Type 0
IsSame owner id st st' =
    (get_thread id owner st' ≡ get_thread id owner st)
    × (list_messages id owner st' ≡ list_messages id owner st)

module _ {J : Type 0} (is_space : ℕ → Bool) where
  abbrev pub perform : Text → ChatCall J → ChatStore J → ChatStore J
  perform owner (create_call new_id now title model params) st =
      create_thread new_id now owner title model params st
  perform owner (update_call thread_id now changes) st =
      (update_thread thread_id owner now changes st).1
  perform owner (delete_call thread_id) st = (delete_thread thread_id owner st).1
  perform owner (add_call new_id now thread_id role content refs) st =
      (add_message is_space new_id now thread_id owner role content refs st).1

  -- Calls of several owners, one after the other.
  abbrev pub perform_all : List (Text × ChatCall J) → ChatStore J → ChatStore J
  perform_all [] st = st
  perform_all ((owner, call) ∷ calls) st = perform_all calls (perform owner call st)

  -- A new thread gets an identifier that no thread has.
  abbrev pub IsFresh : ChatCall J → ChatStore J → Type 0
  IsFresh (create_call new_id now title model params) st =
      get Text-discrete new_id st.threads ≡ none
  IsFresh (update_call thread_id now changes) st = Unit
  IsFresh (delete_call thread_id) st = Unit
  IsFresh (add_call new_id now thread_id role content refs) st = Unit

  -- All calls are of owners other than `owner`, and their new threads have new identifiers.
  abbrev pub AllOthers : Text → List (Text × ChatCall J) → ChatStore J → Type 0
  AllOthers owner [] st = Unit
  AllOthers owner ((p, call) ∷ calls) st =
      (p ≢ owner) × IsFresh call st × AllOthers owner calls (perform p call st)

  -- A change at one key, where the owner has no thread before and after it.
  foreign-IsSame :
      (owner id k : Text) (st st' : ChatStore J)
      → (k ≢ id → get Text-discrete id st'.threads ≡ get Text-discrete id st.threads)
      → (k ≢ id → get Text-discrete id st'.messages ≡ get Text-discrete id st.messages)
      → get_thread k owner st ≡ none
      → get_thread k owner st' ≡ none
      → IsSame owner id st st'
  unfolding list_messages get_thread messages_of
  foreign-IsSame owner id k st st' same same' old new = elim (Text-discrete k id) [
    | yes here ↦
        let old' = subst (λ j. get_thread j owner st ≡ none) here old in
        let new' = subst (λ j. get_thread j owner st' ≡ none) here new in
        (
          new' ∙ sym old',
          ap (λ x. messages_if x (messages_of id st')) new'
              ∙ sym (ap (λ x. messages_if x (messages_of id st)) old'),
        )
    | no other ↦ (ap (if_owned owner) (same other), ground (arith, same other, same' other))
  ]

  pub owned_by-cases :
      (p : Text) (t thread : ChatThread J)
      → owned_by p t ≡ some thread
      → (t ≡ thread) × (thread.owner ≡ p)
  owned_by-cases p t thread found = elim (Text-discrete t.owner p) [
    | yes mine ↦
        let same : t ≡ thread = ground (arith, found, mine) in
        (same, ap (λ x. x.owner) (sym same) ∙ mine)
    | no other ↦
        let no : ◌≡◌ {A = Option (ChatThread J)} none (some thread) =
          ground (arith, found, other) in
        cc
  ]

  owned_by-none : (owner : Text) (t : ChatThread J) → t.owner ≢ owner → owned_by owner t ≡ none
  owned_by-none owner t other = ground (arith, other)

  -- The thread of another owner is no thread of this one.
  owned_by-other :
      (owner p k : Text) (thread : ChatThread J) (st : ChatStore J)
      → p ≢ owner
      → get_thread k p st ≡ some thread
      → (get_thread k owner st ≡ none) × (thread.owner ≡ p)
  unfolding get_thread
  owned_by-other owner p k thread st other found =
      elim (Option-cases (get Text-discrete k st.threads)) [
        | inl gone ↦
            let no : ◌≡◌ {A = Option (ChatThread J)} none (some thread) =
              sym (ap (if_owned p) gone) ∙ found in
            cc
        | inr (t, there) ↦
            let (same, mine) = owned_by-cases p t thread (sym (ap (if_owned p) there) ∙ found) in
            (
              ap (if_owned owner) there
                  ∙ owned_by-none owner t
                      (λ e. other (sym mine ∙ ap (λ x. x.owner) (sym same) ∙ e)),
              mine,
            )
      ]

  -- A thread of another owner written at a key.
  put-foreign :
      (owner k : Text) (t : ChatThread J) (st st' : ChatStore J)
      → st'.threads ≡ put Text-discrete k t st.threads
      → t.owner ≢ owner
      → get_thread k owner st' ≡ none
  unfolding get_thread
  put-foreign owner k t st st' written other =
      ap (λ ts. if_owned owner (get Text-discrete k ts)) written
      ∙ ap (if_owned owner) (get-put_same k t st.threads)
      ∙ owned_by-none owner t other

  update_found-IsSame :
      (owner p id k : Text) (now : ℕ) (changes : Changes J) (found : Option (ChatThread J))
      (st : ChatStore J)
      → p ≢ owner
      → get_thread k p st ≡ found
      → IsSame owner id st (update_found k now changes found st).1
  unfolding update_found change_thread
  update_found-IsSame owner p id k now changes none st other e = (refl, refl)
  update_found-IsSame owner p id k now changes (some thread) st other e =
      let (old, mine) = owned_by-other owner p k thread st other e in
      let st' = (update_found k now changes (some thread) st).1 in
      foreign-IsSame owner id k st st' (λ n. get-put_other k id _ st.threads n) (λ n. refl) old
        (put-foreign owner k (change_thread now changes thread) st st' refl
          (λ h. other (sym mine ∙ h)))

  delete_found-IsSame :
      (owner p id k : Text) (found : Option (ChatThread J)) (st : ChatStore J)
      → p ≢ owner
      → get_thread k p st ≡ found
      → IsSame owner id st (delete_found k found st).1
  unfolding delete_found get_thread
  delete_found-IsSame owner p id k none st other e = (refl, refl)
  delete_found-IsSame owner p id k (some thread) st other e =
      let (old, mine) = owned_by-other owner p k thread st other e in
      foreign-IsSame owner id k st (delete_found k (some thread) st).1
        (λ n. get-pop_other k id st.threads n) (λ n. get-pop_other k id st.messages n) old
        (ap (if_owned owner) (get-pop_same k st.threads))

  append_message-IsSame :
      (owner p id : Text) (message : ChatMessage J) (thread : ChatThread J) (st : ChatStore J)
      → p ≢ owner
      → get_thread message.thread_id p st ≡ some thread
      → IsSame owner id st (append_message is_space message thread st)
  unfolding append_message
  append_message-IsSame owner p id message thread st other e =
      let k = message.thread_id in
      let (old, mine) = owned_by-other owner p k thread st other e in
      let st' = append_message is_space message thread st in
      foreign-IsSame owner id k st st' (λ n. get-put_other k id _ st.threads n)
        (λ n. get-put_other k id _ st.messages n) old
        (put-foreign owner k _ st st' refl (λ h. other (sym mine ∙ h)))

  add_checked-IsSame :
      (owner p id : Text) (message : ChatMessage J) (thread : ChatThread J) (checked : Result Text)
      (st : ChatStore J)
      → p ≢ owner
      → get_thread message.thread_id p st ≡ some thread
      → IsSame owner id st (add_checked is_space message thread checked st).1
  unfolding add_checked
  add_checked-IsSame owner p id message thread (ok role) st other e =
      append_message-IsSame owner p id message thread st other e
  add_checked-IsSame owner p id message thread (raise error) st other e = (refl, refl)

  add_found-IsSame :
      (owner p id : Text) (message : ChatMessage J) (found : Option (ChatThread J))
      (st : ChatStore J)
      → p ≢ owner
      → get_thread message.thread_id p st ≡ found
      → IsSame owner id st (add_found is_space message found st).1
  unfolding add_found
  add_found-IsSame owner p id message none st other e = (refl, refl)
  add_found-IsSame owner p id message (some thread) st other e =
      add_checked-IsSame owner p id message thread (check_role message.role) st other e

  perform-IsSame :
      (owner p id : Text) (call : ChatCall J) (st : ChatStore J)
      → p ≢ owner
      → IsFresh call st
      → IsSame owner id st (perform p call st)
  unfolding create_thread update_thread delete_thread add_message get_thread
  perform-IsSame owner p id (create_call new_id now title model params) st other fresh =
      let st' = create_thread new_id now p title model params st in
      foreign-IsSame owner id new_id st st' (λ n. get-put_other new_id id _ st.threads n)
        (λ n. get-put_other new_id id _ st.messages n) (ap (if_owned owner) fresh)
        (put-foreign owner new_id _ st st' refl other)
  perform-IsSame owner p id (update_call k now changes) st other fresh =
      update_found-IsSame owner p id k now changes (get_thread k p st) st other refl
  perform-IsSame owner p id (delete_call k) st other fresh =
      delete_found-IsSame owner p id k (get_thread k p st) st other refl
  perform-IsSame owner p id (add_call new_id now k role content refs) st other fresh =
      add_found-IsSame owner p id _ (get_thread k p st) st other refl

  -- Whatever others do, with new identifiers for their new threads: an owner sees each thread, and
  -- its messages, as before, or as before not at all.
  pub perform_all-IsSame :
      (owner id : Text) (calls : List (Text × ChatCall J)) (st : ChatStore J)
      → AllOthers owner calls st
      → IsSame owner id st (perform_all calls st)
  perform_all-IsSame owner id [] st others = (refl, refl)
  perform_all-IsSame owner id ((p, call) ∷ calls) st (other, fresh, others) =
      let (thread, messages) = perform-IsSame owner p id call st other fresh in
      let (thread', messages') = perform_all-IsSame owner id calls (perform p call st) others in
      (thread' ∙ thread, messages' ∙ messages)
