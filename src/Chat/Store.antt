-- ===== src/Chat/Store.antt =====
-- memgraphrag/chat/models.py, and InMemoryChatStore of memgraphrag/chat/store.py. The new identifiers
-- and the clock are arguments. A thread that is handed out is not written to by who gets it.
use exeio_memgraphrag.Base.{
  ℕ, zero, suc, List, [], ◌∷◌, ◌++◌, Bool, true, false, if◌then◌else◌, ltb, ◌==◌, length, Option,
  none, some, ite, Result, ok, raise,
}
use exeio_memgraphrag.Base.Dict.{get, put, pop}
use exeio_memgraphrag.Text.Defs.{Text, Text-discrete, codes}
use exeio_memgraphrag.Agent.Tools.{text_less}
use exeio_memgraphrag.Chat.Thread.{
  ChatMessage, ChatStore, ChatThread, check_role, derive_title, new_chat, or_new_chat,
}

-- A field of `update_thread` that the caller does not pass is none.
pub record Changes (J : Type 0) : Type 0 where
  pub title : Option Text
  pub model : Option (Option Text)
  pub params : Option (List (Text × J))

abbrev pub or_old {ℓ} : {A : Type ℓ} → Option A → A → A
or_old none old = old
or_old (some new) old = new

module _ {J : Type 0} where
  abbrev pub owned_by : Text → ChatThread J → Option (ChatThread J)
  owned_by owner thread = ite (Text-discrete thread.owner owner) (some thread) none

  abbrev pub if_owned : Text → Option (ChatThread J) → Option (ChatThread J)
  if_owned owner none = none
  if_owned owner (some thread) = owned_by owner thread

  unfoldable pub get_thread : Text → Text → ChatStore J → Option (ChatThread J)
  unfolding get Text-discrete
  get_thread thread_id owner st = if_owned owner (get Text-discrete thread_id st.threads)

  unfoldable pub create_thread :
      Text → ℕ → Text → Option Text → Option Text → List (Text × J) → ChatStore J → ChatStore J
  unfolding put Text-discrete
  create_thread new_id now owner title model params st =
      let thread : ChatThread J = record {
        id = new_id;
        owner = owner;
        title = or_new_chat title;
        model = model;
        params = params;
        created_at = now;
        updated_at = now;
      } in
      record {
        threads = put Text-discrete new_id thread st.threads;
        messages = put Text-discrete new_id [] st.messages;
      }

  -- Is `a` in front of `b` in a listing: by its time, then by its identifier, the greater first?
  unfoldable pub is_before : ChatThread J → ChatThread J → Bool
  unfolding text_less
  is_before a b =
      if a.updated_at == b.updated_at then text_less b.id a.id else ltb b.updated_at a.updated_at

  unfoldable pub insert_thread : ChatThread J → List (ChatThread J) → List (ChatThread J)
  unfolding is_before
  insert_thread thread [] = thread ∷ []
  insert_thread thread (t ∷ ts) =
      let rest = insert_thread thread ts in if is_before t thread then t ∷ rest else thread ∷ t ∷ ts

  -- the threads of the owner, in the order of a listing
  unfoldable pub owned_threads : Text → List (Text × ChatThread J) → List (ChatThread J)
  unfolding insert_thread Text-discrete
  owned_threads owner [] = []
  owned_threads owner ((id, thread) ∷ threads) =
      let rest = owned_threads owner threads in
      ite (Text-discrete thread.owner owner) (insert_thread thread rest) rest

  abbrev pub skip_threads : ℕ → List (ChatThread J) → List (ChatThread J)
  skip_threads zero ts = ts
  skip_threads (suc n) [] = []
  skip_threads (suc n) (t ∷ ts) = skip_threads n ts

  abbrev pub first_threads : ℕ → List (ChatThread J) → List (ChatThread J)
  first_threads zero ts = []
  first_threads (suc n) [] = []
  first_threads (suc n) (t ∷ ts) = t ∷ first_threads n ts

  unfoldable pub list_threads : Text → ℕ → ℕ → ChatStore J → List (ChatThread J) × ℕ
  unfolding owned_threads
  list_threads owner limit offset st =
      let owned = owned_threads owner st.threads in
      (first_threads limit (skip_threads offset owned), length owned)

  unfoldable pub change_thread : ℕ → Changes J → ChatThread J → ChatThread J
  change_thread now changes thread = record thread {
    title = or_old changes.title thread.title;
    model = or_old changes.model thread.model;
    params = or_old changes.params thread.params;
    updated_at = now;
  }

  unfoldable pub update_found :
      Text
      → ℕ
      → Changes J
      → Option (ChatThread J)
      → ChatStore J
      → Option (ChatThread J) × ChatStore J
  unfolding put change_thread Text-discrete
  update_found thread_id now changes none st = (none, st)
  update_found thread_id now changes (some thread) st =
      let changed = change_thread now changes thread in
      (some changed, record st { threads = put Text-discrete thread_id changed st.threads })

  unfoldable pub update_thread :
      Text → Text → ℕ → Changes J → ChatStore J → Option (ChatThread J) × ChatStore J
  unfolding update_found get_thread
  update_thread thread_id owner now changes st =
      update_found thread_id now changes (get_thread thread_id owner st) st

  unfoldable pub delete_found : Text → Option (ChatThread J) → ChatStore J → Bool × ChatStore J
  unfolding pop Text-discrete
  delete_found thread_id none st = (false, st)
  delete_found thread_id (some thread) st = (
    true,
    record {
      threads = pop Text-discrete thread_id st.threads;
      messages = pop Text-discrete thread_id st.messages;
    },
  )

  unfoldable pub delete_thread : Text → Text → ChatStore J → Bool × ChatStore J
  unfolding delete_found get_thread
  delete_thread thread_id owner st = delete_found thread_id (get_thread thread_id owner st) st

  -- The messages of a thread, none of them where there is no entry.
  unfoldable pub messages_of : Text → ChatStore J → List (ChatMessage J)
  unfolding get Text-discrete
  messages_of thread_id st = elim (get Text-discrete thread_id st.messages) [
    | none ↦ []
    | some ms ↦ ms
  ]

  -- The title of a thread behind a message: the first message of a user names it.
  unfoldable pub name_thread : (ℕ → Bool) → Text → Text → ChatThread J → Text
  unfolding derive_title Text-discrete
  name_thread is_space role content thread =
      ite (Text-discrete role (codes "user"))
        (ite (Text-discrete thread.title new_chat) (derive_title is_space content) thread.title)
        thread.title

  unfoldable pub append_message :
      (ℕ → Bool) → ChatMessage J → ChatThread J → ChatStore J → ChatStore J
  unfolding put messages_of name_thread Text-discrete
  append_message is_space message thread st = record {
    messages =
        put Text-discrete message.thread_id (messages_of message.thread_id st ++ message ∷ [])
          st.messages;
    threads =
        put Text-discrete message.thread_id
          (record thread {
            title = name_thread is_space message.role message.content thread;
            updated_at = message.created_at;
          })
          st.threads;
  }

  -- Behind the check of the role; a role that is refused changes nothing.
  unfoldable pub add_checked :
      (ℕ → Bool)
      → ChatMessage J
      → ChatThread J
      → Result Text
      → ChatStore J
      → Result (Option (ChatMessage J)) × ChatStore J
  unfolding append_message
  add_checked is_space message thread (ok role) st =
      (ok (some message), append_message is_space message thread st)
  add_checked is_space message thread (raise e) st = (raise e, st)

  -- A call of `add_message`, on the thread that was found.
  unfoldable pub add_found :
      (ℕ → Bool)
      → ChatMessage J
      → Option (ChatThread J)
      → ChatStore J
      → Result (Option (ChatMessage J)) × ChatStore J
  unfolding add_checked check_role
  add_found is_space message none st = (ok none, st)
  add_found is_space message (some thread) st =
      add_checked is_space message thread (check_role message.role) st

  unfoldable pub add_message :
      (ℕ → Bool)
      → Text
      → ℕ
      → Text
      → Text
      → Text
      → Text
      → List J
      → ChatStore J
      → Result (Option (ChatMessage J)) × ChatStore J
  unfolding add_found get_thread
  add_message is_space new_id now thread_id owner role content refs st =
      add_found is_space
        (record {
          id = new_id;
          thread_id = thread_id;
          role = role;
          content = content;
          refs = refs;
          created_at = now;
        })
        (get_thread thread_id owner st) st

  abbrev pub messages_if :
      Option (ChatThread J) → List (ChatMessage J) → Option (List (ChatMessage J))
  messages_if none ms = none
  messages_if (some thread) ms = some ms

  unfoldable pub list_messages : Text → Text → ChatStore J → Option (List (ChatMessage J))
  unfolding get_thread messages_of
  list_messages thread_id owner st =
      messages_if (get_thread thread_id owner st) (messages_of thread_id st)
