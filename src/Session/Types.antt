-- ===== src/Session/Types.antt =====
-- sessions.c and services.h: the records of the session limiter, its configuration, what it sends.
use k9_chatnet.Common.{ℕ, Bool, List, Bytes, Option}

-- `struct session_`; the links `prev` and `next` are the order of the bucket's list.
pub record Session : Type 0 where
  pub host : Bytes
  pub count : ℕ
  pub hits : ℕ

-- `struct exception_`
pub record Exception : Type 0 where
  pub mask : Bytes
  pub limit : ℕ
  pub who : Bytes
  pub reason : Bytes
  pub time : ℕ
  pub expires : ℕ
  pub num : ℕ

-- The configuration values that sessions.c reads; `reduce_session` is
-- `checkDefCon(DEFCON_REDUCE_SESSION)`.
pub record Config : Type 0 where
  pub def_session_limit : ℕ
  pub defcon_session_limit : ℕ
  pub reduce_session : Bool
  pub max_session_kill : ℕ
  pub session_auto_kill_expiry : ℕ
  pub session_limit_exceeded : Option Bytes
  pub session_limit_details_loc : Option Bytes
  pub wall_exception_expire : Bool

-- What is sent to the network. A notice has its receiver, its format and the format's arguments.
pub data Effect : Type 0 where
  notice : Bytes → Bytes → List Bytes → Effect
  kill : Bytes → Effect
  add_akill : Bytes → ℕ → Effect
  wallops_akill : Bytes → Effect
  wallops_no_session : Bytes → Effect
  wallops_expired : Bytes → Effect

-- `sessionlist`, `nsessions`, `exceptions`; `nexceptions` is the length of `exceptions`.
pub record State : Type 0 where
  pub sessionlist : List (List Session)
  pub nsessions : ℕ
  pub exceptions : List Exception
