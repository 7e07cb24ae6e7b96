-- ===== src/Chat/Added.antt =====
-- A message that is added to a thread (memgraphrag/chat/store.py).
use exeio_memgraphrag.Base.{
  ℕ, List, [], ◌∷◌, ◌++◌, Bool, Option, none, some, ok, ◌≡◌, refl, sym, ap, ◌∙◌, arith,
  Option-cases, inl, inr,
}
use exeio_memgraphrag.Base.Dict.{get}
use exeio_memgraphrag.Text.Defs.{Text, Text-discrete}
use exeio_memgraphrag.Chat.Store.{
  if_owned, owned_by, get_thread, messages_of, append_message, add_checked, add_found, add_message,
  messages_if, list_messages,
}
use exeio_memgraphrag.Chat.Thread.{ChatMessage, ChatThread, ChatStore, check_role}
use exeio_memgraphrag.Chat.Owned.{get-put_same, owned_by-cases}

module _ {J : Type 0} (is_space : ℕ → Bool) where
  owned_by-mine : (owner : Text) (t : ChatThread J) → t.owner ≡ owner → owned_by owner t ≡ some t
  owned_by-mine owner t mine = ground (arith, mine)

  get_thread-owner :
      (id owner : Text) (thread : ChatThread J) (st : ChatStore J)
      → get_thread id owner st ≡ some thread
      → thread.owner ≡ owner
  unfolding get_thread
  get_thread-owner id owner thread st found =
      elim (Option-cases (get Text-discrete id st.threads)) [
        | inl gone ↦
            let no : ◌≡◌ {A = Option (ChatThread J)} none (some thread) =
              sym (ap (if_owned owner) gone) ∙ found in
            cc
        | inr (t, there) ↦
            (owned_by-cases is_space owner t thread (sym (ap (if_owned owner) there) ∙ found)).1
      ]

  append_message-list_messages :
      (message : ChatMessage J) (owner : Text) (thread : ChatThread J) (st : ChatStore J)
      → get_thread message.thread_id owner st ≡ some thread
      → list_messages message.thread_id owner (append_message is_space message thread st)
        ≡ some (messages_of message.thread_id st ++ message ∷ [])
  unfolding list_messages get_thread append_message messages_of
  append_message-list_messages message owner thread st found =
      let mine = get_thread-owner message.thread_id owner thread st found in
      let k = message.thread_id in
      let after = append_message is_space message thread st in
      let messages : messages_of k after ≡ messages_of k st ++ message ∷ [] =
        ground (arith, get-put_same k (messages_of k st ++ message ∷ []) st.messages) in
      ap (λ o. messages_if (if_owned owner o) (messages_of k after)) (get-put_same k _ st.threads)
      ∙ ap (λ o. messages_if o (messages_of k after)) (owned_by-mine owner _ mine)
      ∙ ap some messages

  add_message-ok :
      (new_id thread_id owner role content : Text) (now : ℕ) (refs : List J) (thread : ChatThread J)
      (st : ChatStore J)
      → get_thread thread_id owner st ≡ some thread
      → check_role role ≡ ok role
      → let message : ChatMessage J = record {
        id = new_id;
        thread_id = thread_id;
        role = role;
        content = content;
        refs = refs;
        created_at = now;
      } in
        add_message is_space new_id now thread_id owner role content refs st
        ≡ (ok (some message), append_message is_space message thread st)
  unfolding add_message add_found add_checked
  add_message-ok new_id thread_id owner role content now refs thread st found allowed =
      let message : ChatMessage J = record {
        id = new_id;
        thread_id = thread_id;
        role = role;
        content = content;
        refs = refs;
        created_at = now;
      } in
      ap (λ f. add_found is_space message f st) found
      ∙ ap (λ c. add_checked is_space message thread c st) allowed

  -- A message of an owner's thread, in a role that is allowed, is handed back with its content and
  -- its references, and the thread lists it behind the messages that it had.
  pub add_message-list_messages :
      (new_id thread_id owner role content : Text) (now : ℕ) (refs : List J) (thread : ChatThread J)
      (st : ChatStore J)
      → get_thread thread_id owner st ≡ some thread
      → check_role role ≡ ok role
      → let (answer, st') = add_message is_space new_id now thread_id owner role content refs st in
        (message : ChatMessage J) × (answer ≡ ok (some message))
        × (message.content ≡ content)
        × (message.refs ≡ refs)
        × (list_messages thread_id owner st' ≡ some (messages_of thread_id st ++ message ∷ []))
  add_message-list_messages new_id thread_id owner role content now refs thread st found allowed =
      let e = add_message-ok new_id thread_id owner role content now refs thread st found allowed in
      let message : ChatMessage J = record {
        id = new_id;
        thread_id = thread_id;
        role = role;
        content = content;
        refs = refs;
        created_at = now;
      } in
      (
        message,
        ap (λ r. r.0) e,
        refl,
        refl,
        ap (λ r. list_messages thread_id owner r.1) e
            ∙ append_message-list_messages message owner thread st found,
      )
