-- ===== src/Chat/Tests.antt =====
-- Two owners, and a third call that guesses an identifier.
use exeio_memgraphrag.Base.{
  ℕ, List, [], ◌∷◌, ◌++◌, Bool, none, some, ok, raise, value_error, ◌≡◌, ◌≢◌, refl, ap, arith,
  ℕ_discrete, map, ◌==◌,
}
use exeio_memgraphrag.Base.Dict.{get, put}
use exeio_memgraphrag.Text.Defs.{Text, Text-discrete, codes, rstrip}
use exeio_memgraphrag.Pipeline.Status.{words}
use exeio_memgraphrag.Agent.Tools.{text_less}
use exeio_memgraphrag.Chat.Store.{
  get_thread, create_thread, name_thread, messages_of, append_message, add_checked, add_found,
  add_message, list_messages, list_threads, owned_threads, insert_thread, is_before,
}
use exeio_memgraphrag.Chat.Thread.{ChatStore, ChatThread, ChatMessage, derive_title, check_role}
use exeio_memgraphrag.Chat.Added.{add_message-list_messages}
use exeio_memgraphrag.Chat.Owned.{
  ChatCall, create_call, delete_call, add_call, perform_all, IsSame, perform_all-IsSame,
}

abbrev is_space_char : ℕ → Bool
is_space_char c = c == 32

abbrev empty : ChatStore ℕ
empty = record { threads = []; messages = [] }

abbrev ann : Text
ann = codes "ann"

abbrev bob : Text
bob = codes "bob"

abbrev store : ChatStore ℕ
store = create_thread (codes "t1") 5 ann none none [] empty

abbrev calls : List (Text × ChatCall ℕ)
calls =
    (bob, create_call (codes "t2") 6 none none [])
    ∷ (bob, add_call (codes "m1") 7 (codes "t1") (codes "user") (codes "hello") [])
    ∷ (bob, delete_call (codes "t1"))
    ∷ []

abbrev first : Text → ℕ
first [] = 0
first (c ∷ t) = c

bob-ann : bob ≢ ann
bob-ann e = omega (arith, ap first e)

perform_all-IsSame_example : IsSame ann (codes "t1") store (perform_all is_space_char calls store)
unfolding create_thread get put Text-discrete ℕ_discrete
perform_all-IsSame_example =
    perform_all-IsSame is_space_char ann (codes "t1") calls store
      (bob-ann, refl, (bob-ann, tt, (bob-ann, tt, tt)))

titled :
    let (answer, st) =
      add_message is_space_char
        (codes "m1")
        9
        (codes "t1")
        ann
        (codes "user")
        (codes " Who  is it ")
        []
        store in
    (map (λ t. t.title) (list_threads ann 10 0 st).0 ≡ codes "Who is it" ∷ [])
    × (list_messages (codes "t1") bob st ≡ none)
unfolding add_message add_found add_checked check_role append_message name_thread derive_title
    messages_of list_messages list_threads owned_threads insert_thread is_before get_thread
    create_thread words rstrip text_less get put Text-discrete ℕ_discrete
titled = (refl, refl)

refused :
    (add_message is_space_char
      (codes "m1")
      9
      (codes "t1")
      ann
      (codes "system")
      (codes "x")
      []
      store).0
    ≡ raise value_error
unfolding add_message add_found add_checked check_role append_message name_thread derive_title
    messages_of get_thread create_thread get put Text-discrete ℕ_discrete
refused = refl

abbrev thread : ChatThread ℕ
thread = record {
  id = codes "t1";
  owner = ann;
  title = codes "New chat";
  model = none;
  params = [];
  created_at = 5;
  updated_at = 5;
}

add_message-list_messages_example :
    let (answer, st') =
      add_message is_space_char
        (codes "m1")
        9
        (codes "t1")
        ann
        (codes "user")
        (codes "hello")
        []
        store in
    (message : ChatMessage ℕ) × (answer ≡ ok (some message))
    × (message.content ≡ codes "hello")
    × (message.refs ≡ [])
    × (list_messages (codes "t1") ann st' ≡ some (messages_of (codes "t1") store ++ message ∷ []))
unfolding get_thread create_thread check_role get put Text-discrete ℕ_discrete
add_message-list_messages_example =
    add_message-list_messages is_space_char (codes "m1") (codes "t1") ann (codes "user")
      (codes "hello") 9 [] thread store refl refl
