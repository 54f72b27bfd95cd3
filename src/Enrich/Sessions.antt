-- ===== src/Enrich/Sessions.antt =====
-- internal/enrich/enrich.go: logon sessions collapse to their earliest row.
use piiat_mem.Prelude.{ℕ, Bool, Option, none, some, List, [], ◌∷◌, ◌++◌, ◌==◌, if◌then◌else◌}
use piiat_mem.Prelude.Text.{Text, text_eq, text_lt}
use piiat_mem.Prelude.Keys.{codes}
use piiat_mem.Prelude.Assoc.{find_key, put_key, put_default, values, both}
use piiat_mem.Value.{Event, get, str, is_nil, is_blank}
use piiat_mem.Value.Numbers.{to_int}
use piiat_mem.Enrich.{img, is_object}

-- `imgStr` and `pidKey`.
abbrev pub ImgStr : Type 0
ImgStr = Text × Text

abbrev pub PidKey : Type 0
PidKey = Text × ℕ

abbrev pub img_str_eq : ImgStr → ImgStr → Bool
img_str_eq = both text_eq text_eq

abbrev pub pid_key_eq : PidKey → PidKey → Bool
pid_key_eq = both text_eq (λ a b. a == b)

-- A missing timestamp sorts last.
unfoldable pub ts_key : Event → Text
ts_key ev = elim (str (get "timestamp" ev)) [ [] ↦ codes "~" | c ∷ s ↦ c ∷ s ]

pub record Sessions : Type 0 where
  pub keep : List Event
  pub sessions : List (ImgStr × Event)
  pub users : List (PidKey × Text)

unfoldable pub note_user : Event → Option ℕ → List (PidKey × Text) → List (PidKey × Text)
note_user ev none users = users
note_user ev (some pid) users =
    if is_blank (get "user" ev)
    then users
    else put_default pid_key_eq (img ev, pid) (str (get "user" ev)) users

unfoldable pub note_session : Event → List (ImgStr × Event) → List (ImgStr × Event)
note_session ev sessions =
    let k : ImgStr = (img ev, str (get "guid" ev)) in
    elim (find_key img_str_eq k sessions) [
      | none ↦ put_key img_str_eq k ev sessions
      | some cur ↦
          (if text_lt (ts_key ev) (ts_key cur) then put_key img_str_eq k ev sessions else sessions)
    ]

unfoldable pub session_step : Event → Sessions → Sessions
session_step ev s =
    if is_object "user_session" ev
    then record {
      keep = s.keep;
      sessions = if is_nil (get "guid" ev) then s.sessions else note_session ev s.sessions;
      users = note_user ev (to_int (get "owning_pid" ev)) s.users;
    }
    else record { keep = s.keep ++ (ev ∷ []); sessions = s.sessions; users = s.users }

unfoldable pub session_loop : List Event → Sessions → Sessions
session_loop [] s = s
session_loop (ev ∷ events) s = session_loop events (session_step ev s)

unfoldable pub collapse_sessions : List Event → List Event × List (PidKey × Text)
collapse_sessions events =
    let s = session_loop events (record { keep = []; sessions = []; users = [] }) in
    (s.keep ++ values s.sessions, s.users)
