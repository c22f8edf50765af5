-- ===== src/Session/Tests.antt =====
-- Runs of the context manager on concrete sessions, and the instances of the properties.
use nexus_ai_gateway.Common.{
  ℕ, ◌+◌, ◌≡◌, true, Option, none, some, List, [], ◌∷◌, ◌++◌, String, arith, refl, leb, replicate,
  length, if◌then◌else◌, inl,
}
use nexus_ai_gateway.Common.Dict.{find, put, delete}
use nexus_ai_gateway.Session.{
  unset, msg, Message, Session, ContextManager, create_session, append_message, add_message, update,
  change_found, clear_session, delete_session, get_session, get_messages, get_context_for_llm,
  session_count, session_not_found, sweep, cleanup, fit, Decoded,
}
use nexus_ai_gateway.Session.History.{
  add_all, added, column, content_of, id_of, last, created_holds_last, full_repeats_ids,
}
use nexus_ai_gateway.Session.Expiry.{cleanup-get_session}
use nexus_ai_gateway.Session.Context.{tokens_of, fit_all_or_nothing}

abbrev says : List ℕ → Message ℕ
says content = record {
  id = unset;
  role = "user";
  content = content;
  model = "";
  tokens = 0;
  timestamp = 0;
  metadata = [];
}

-- A manager that keeps two messages of each session.
abbrev short : ContextManager ℕ
short = record { sessions = []; max_history = 2; ttl = 10; cleanup_tick = 1 }

abbrev three : List (ℕ × Message ℕ)
three = (1, says (1 ∷ [])) ∷ (2, says (2 ∷ [])) ∷ (3, says (3 ∷ [])) ∷ []

abbrev full : Session ℕ
full = record {
  id = "s";
  tenant_id = "t";
  user_id = "u";
  messages = says (8 ∷ []) ∷ says (9 ∷ []) ∷ [];
  metadata = [];
  created_at = 0;
  updated_at = 0;
  expires_at = 10;
  is_active = true;
}

abbrev holding : ContextManager ℕ
holding = record short { sessions = ("s", full) ∷ [] }

last_two_of_three :
    column content_of "s" (add_all "s" three (create_session 0 "s" "t" "u" short))
    ≡ (2 ∷ []) ∷ (3 ∷ []) ∷ []
unfolding create_session add_message update change_found append_message find put
last_two_of_three = refl

ids_of_three : column id_of "s" (add_all "s" three holding) ≡ msg 3 ∷ msg 3 ∷ []
unfolding add_message update change_found append_message find put
ids_of_three = refl

cleared_and_deleted : session_count (delete_session "s" (clear_session 5 "s" holding).0).0 ≡ 0
unfolding clear_session delete_session update change_found session_count find put delete
cleared_and_deleted = refl

messages_of_expired : get_messages 11 "s" holding ≡ inl (session_not_found "s")
unfolding get_messages get_session find
messages_of_expired = refl

context_of_expired : get_context_for_llm 11 "s" 100 holding ≡ inl (session_not_found "s")
unfolding get_context_for_llm get_session find
context_of_expired = refl

swept : (cleanup 11 holding).1 ≡ 1
unfolding cleanup sweep
swept = refl

created_holds_last_example :
    column content_of "s" (add_all "s" three (create_session 0 "s" "t" "u" short))
    ≡ last 2 (added three)
created_holds_last_example = created_holds_last 0 "s" "t" "u" three short

full_repeats_ids_example :
    column id_of "s" (add_all "s" three holding)
    ≡ last 2 (column id_of "s" holding ++ replicate (length three) (msg (2 + 1)))
unfolding find
full_repeats_ids_example = full_repeats_ids "s" three holding full refl refl

cleanup-get_session_example :
    (find "s" (cleanup 11 holding).0.sessions ≡ get_session 11 "s" holding)
    × (get_session 12 "s" (cleanup 11 holding).0 ≡ get_session 12 "s" holding)
cleanup-get_session_example = cleanup-get_session 11 12 "s" holding (omega arith)

abbrev decode : String → Option (Decoded ℕ)
decode text = some (record { tenant_id = some "t"; user_id = none; metadata = none })

fit_all_or_nothing_example :
    (fit 3 full.messages).0 ≡ (if leb (tokens_of full.messages) 3 then full.messages else [])
fit_all_or_nothing_example = fit_all_or_nothing 3 full.messages
