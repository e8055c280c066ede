-- ===== src/Tests/Lines.antt =====
-- process.c and users.c: a line of a message, a mask, and ignored nicks.
use k9_chatnet.Common.{
  ℕ, ◌+◌, ◌≤◌, ◌≡◌, refl, List, [], ◌∷◌, Bytes, none, some, arith, codes, if◌then◌else◌, ◌==◌,
}
use k9_chatnet.User.{User}
use k9_chatnet.Process.Ignore.{Ignore, Ignores, Found, add_ignore, get_ignore}
use k9_chatnet.Process.Ignore.Kept.{add_ignore-get_ignore}

-- "ME  bob :hi all"
abbrev words : List (Bytes × ℕ)
words = (codes "ME", 1) ∷ (codes "bob", 0) ∷ []

abbrev bob : User
bob = record {
  nick = codes "bob";
  username = codes "u";
  host = codes "h.net";
  vhost = none;
  vident = none;
}

abbrev no_one : Ignores
no_one i = []

add_ignore-get_ignore_example :
    (e : Ignore) × (get_ignore 105 (add_ignore 100 (codes "Bob") 10 no_one) (codes "Bob") none
      ≡ (add_ignore 100 (codes "Bob") 10 no_one, some e))
    × (100 + 10 ≤ e.time)
add_ignore-get_ignore_example =
    add_ignore-get_ignore 100 105 10 (codes "Bob") none no_one
      (add_ignore 100 (codes "Bob") 10 no_one) (omega arith) (omega arith) refl

abbrev starred : List Ignore
starred =
    record { who = codes "*@h.net"; time = 90 } ∷ record { who = codes "*@x"; time = 200 } ∷ []

abbrev masks : Ignores
masks i = if i == b'*' then starred else []

abbrev first_mask : Found
first_mask = record {
  before = [];
  entry = record { who = codes "*@h.net"; time = 90 };
  after = record { who = codes "*@x"; time = 200 } ∷ [];
}
