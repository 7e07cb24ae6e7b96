-- ===== src/Chat/Thread.antt =====
-- memgraphrag/chat/models.py, and the whole state of a store of conversations.
use exeio_memgraphrag.Base.{
  ℕ, List, [], ◌∷◌, ◌++◌, Bool, if◌then◌else◌, leb, length, Option, some, ite, Result, ok, raise,
  value_error,
}
use exeio_memgraphrag.Text.Defs.{Text, Text-discrete, codes, rstrip}
use exeio_memgraphrag.Text.Find
use exeio_memgraphrag.Pipeline.Status.{words, join_words}

pub record ChatMessage (J : Type 0) : Type 0 where
  pub id : Text
  pub thread_id : Text
  pub role : Text
  pub content : Text
  pub refs : List J
  pub created_at : ℕ

-- `params` is a dictionary of JSON values.
pub record ChatThread (J : Type 0) : Type 0 where
  pub id : Text
  pub owner : Text
  pub title : Text
  pub model : Option Text
  pub params : List (Text × J)
  pub created_at : ℕ
  pub updated_at : ℕ

pub record ChatStore (J : Type 0) : Type 0 where
  pub threads : List (Text × ChatThread J)
  pub messages : List (Text × List (ChatMessage J))

abbrev pub new_chat : Text
new_chat = codes "New chat"

abbrev pub title_limit : ℕ
title_limit = 120

abbrev pub or_new_chat : Option Text → Text
or_new_chat (some (c ∷ title)) = c ∷ title
or_new_chat _ = new_chat

unfoldable pub derive_title : (ℕ → Bool) → Text → Text
unfolding words rstrip
derive_title is_space text =
    let collapsed = join_words (words is_space [] text) in
    elim collapsed [
      | [] ↦ new_chat
      | c ∷ title ↦
          if leb (length (c ∷ title)) title_limit
          then c ∷ title
          else rstrip is_space (Find.take title_limit (c ∷ title)) ++ codes "…"
    ]

unfoldable pub check_role : Text → Result Text
check_role role =
    ite (Text-discrete role (codes "user")) (ok role)
      (ite (Text-discrete role (codes "assistant")) (ok role) (raise value_error))
