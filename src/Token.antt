-- ===== src/Token.antt =====
-- Common/token.py: the class Token. `now()` is an argument, and a method reads it once. The random
-- texts of `token_urlsafe` are arguments too; keys are only compared, so they are numbers. A token
-- is changed in place: a method returns the object as it is afterwards, beside its result.
pub mod Lifecycle
mod Tests
use cpy_q.Prelude.{
  ℕ, ◌+◌, Bool, true, false, not, ◌&&◌, ◌||◌, Option, none, some, is_some, ltb, if◌then◌else◌,
}

-- `session` refers to a Session object.
pub record Token : Type 0 where
  pub id : ℕ
  pub access : ℕ
  pub refresh : ℕ
  pub access_expires : ℕ
  pub refresh_expires : ℕ
  pub killed_at : Option ℕ
  pub session : ℕ

-- What `token_urlsafe` returns for one token.
pub record Secrets : Type 0 where
  pub id : ℕ
  pub access : ℕ
  pub refresh : ℕ

-- `config.access_time` and `config.refresh_time`, as the services pass them on
pub record Lifetimes : Type 0 where
  pub access_time : ℕ
  pub refresh_time : ℕ

abbrev pub killed : Token → Bool
killed token = is_some token.killed_at

unfoldable pub active : ℕ → Token → Bool
active now token = not (killed token) && ltb now token.access_expires

unfoldable pub expired : ℕ → Token → Bool
expired now token = killed token || ltb token.refresh_expires now

unfoldable pub kill : ℕ → Token → Token × Bool
unfolding expired
kill now token =
    if expired now token then (token, false) else (record token { killed_at = some now }, true)

abbrev pub get_expirations : ℕ → Lifetimes → ℕ × ℕ
get_expirations now times = (now + times.access_time, now + times.refresh_time)

unfoldable pub renew : ℕ → Lifetimes → Secrets → Token → Token × Bool
unfolding expired
renew now times secrets token = if expired now token then (token, false) else (
  record token {
    access = secrets.access;
    refresh = secrets.refresh;
    access_expires = (get_expirations now times).0;
    refresh_expires = (get_expirations now times).1;
  },
  true,
)

-- `Token.new` for a Session object that is already there: see `Auth.new_token`.
unfoldable pub new : ℕ → Lifetimes → Secrets → ℕ → Token
new now times secrets session = record {
  id = secrets.id;
  access = secrets.access;
  refresh = secrets.refresh;
  access_expires = (get_expirations now times).0;
  refresh_expires = (get_expirations now times).1;
  killed_at = none;
  session = session;
}
