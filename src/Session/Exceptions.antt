-- ===== src/Session/Exceptions.antt =====
-- sessions.c: the list of exceptions.
pub mod Expiry
use k9_chatnet.Common.{
  ℕ, zero, suc, ◌+◌, ◌-◌, Bool, true, false, ◌||◌, List, [], ◌∷◌, ◌++◌, Bytes, Option, none, some,
  take, drop, length, get_elem?, ltb, leb, ◌==◌, if◌then◌else◌,
}
use k9_chatnet.Text.Case.{same_text}
use k9_chatnet.Text.Wild.{match_wild_nocase}
use k9_chatnet.Session.Types.{Exception, Effect, wallops_expired, Config}

-- The first exception whose mask the host matches.
unfoldable pub find_host_exception : List Exception → Bytes → Option Exception
find_host_exception [] host = none
find_host_exception (e ∷ es) host =
    if match_wild_nocase e.mask host then some e else find_host_exception es host

-- `exceptions[i].expires == 0 || exceptions[i].expires > now`
abbrev pub is_live : ℕ → Exception → Bool
is_live now e = e.expires == 0 || ltb now e.expires

-- The entry at the index is taken out and the ones behind it move down.
unfoldable pub remove_at : List Exception → ℕ → List Exception
remove_at es i = take i es ++ drop (suc i) es

-- One call for each round of the loop: `i` is stepped back after a removal.
unfoldable pub expire_loop : Config → ℕ → ℕ → ℕ → List Exception → List Exception × List Effect
expire_loop c now zero i es = (es, [])
expire_loop c now (suc rounds) i es = elim (get_elem? es i) [
  | none ↦ (es, [])
  | some e ↦ elim (is_live now e) [
    | true ↦ expire_loop c now rounds (suc i) es
    | false ↦
        let (es', sent) = expire_loop c now rounds i (remove_at es i) in
        (es', if c.wall_exception_expire then wallops_expired e.mask ∷ sent else sent)
  ]
]

unfoldable pub expire_exceptions : Config → ℕ → List Exception → List Exception × List Effect
unfolding expire_loop remove_at
expire_exceptions c now es = expire_loop c now (length es) 0 es

abbrev pub mask_is_known : Bytes → List Exception → Bool
mask_is_known mask [] = false
mask_is_known mask (e ∷ es) = if same_text mask e.mask then true else mask_is_known mask es

-- `strscpy` into an array of NICKMAX bytes.
abbrev pub nickmax : ℕ
nickmax = 32

abbrev pub added_entry : ℕ → Bytes → ℕ → Bytes → Bytes → ℕ → List Exception → Exception
added_entry now mask limit reason who expires es = record {
  mask = mask;
  limit = limit;
  who = take (nickmax - 1) who;
  reason = reason;
  time = now;
  expires = expires;
  num = length es;
}

-- Returns 0 and changes nothing if there is an exception with the mask.
unfoldable pub exception_add :
    ℕ → Bytes → ℕ → Bytes → Bytes → ℕ → List Exception → List Exception × Bool
exception_add now mask limit reason who expires es =
    if mask_is_known mask es
    then (es, false)
    else (es ++ added_entry now mask limit reason who expires es ∷ [], true)

unfoldable pub exception_del : ℕ → List Exception → List Exception × Bool
unfolding remove_at
exception_del index es = if leb (length es) index then (es, false) else (remove_at es index, true)
