-- ===== src/User/Table/Order.antt =====
-- users.c: the table of lists against one list of the users, the last that came or changed his nick first.
use k9_chatnet.Common.{
  ℕ, ◌+◌, ◌≤◌, ◌<◌, ◌≡◌, refl, sym, ap, ◌∙◌, inl, inr, true, false, List, [], ◌∷◌, Bytes, IsText,
  arith, length, ◌==◌, ==_iff, ==-refl, Bool-cases, All,
}
use k9_chatnet.User.Table.{
  Users, put, hash, strscpy, new_user, unlinked, unlink_user, change_user_nick, delete_user,
  search_user, finduser,
}
use k9_chatnet.User.Table.Hashed.{hashed_to, search_user-hashed_to}
use k9_chatnet.User.Table.Lists.{
  Without, Distinct, is_listed, unlinked-Without, unlinked-All, unlinked-Distinct, length-unlinked,
  hashed_to-unlinked, hashed_to-Without, hashed_to-put, strscpy-IsText, put-IsText,
}

abbrev pub no_users : Users
no_users = record { nick = λ v. []; userlist = λ i. []; usercnt = 0; maxusercnt = 0; next = 0 }

-- The states that users make who come, change their nicks and leave, and the list of those online.
pub data Reached : Users → List ℕ → Type 0 where
  start : Reached no_users []
  comes :
      {us : Users}
      → {o : List ℕ} → (nick : Bytes) → IsText nick
      → Reached us o
      → Reached (new_user nick us) (us.next ∷ o)
  changes :
      {us : Users}
      → {o : List ℕ} → (user : ℕ) → (nick : Bytes) → IsText nick
      → is_listed user o ≡ true
      → Reached us o
      → Reached (change_user_nick user nick us) (user ∷ unlinked user o)
  goes :
      {us : Users}
      → {o : List ℕ} → (user : ℕ) → is_listed user o ≡ true
      → Reached us o
      → Reached (delete_user user us) (unlinked user o)

pub record Tracks (us : Users) (o : List ℕ) : Type 0 where
  pub kept : (i : ℕ) → us.userlist i ≡ hashed_to us.nick i o
  pub counted : us.usercnt ≡ length o
  pub most : us.usercnt ≤ us.maxusercnt
  pub fresh : All (λ v. v < us.next) o
  pub different : Distinct o
  pub texts : All (λ v. IsText (us.nick v)) o

-- A user that is linked into the list of his new nick.
linked :
    (nick : ℕ → Bytes) (lists : ℕ → List ℕ) (user : ℕ) (new : Bytes) (o : List ℕ)
    → Without user o
    → ((i : ℕ) → lists i ≡ hashed_to nick i o)
    → (i : ℕ)
    → put lists (hash new) (user ∷ lists (hash new)) i ≡ hashed_to (put nick user new) i (user ∷ o)
unfolding hashed_to
linked nick lists user new o out kept i = elim (Bool-cases (i == hash new)) [
  | inl hit ↦
      let at : i ≡ hash new = (==_iff i (hash new)).0 hit in
      let own : (hash new == i) ≡ true = (==_iff (hash new) i).1 (sym at) in
      rw (hit, ==-refl user, own)
        (ap (◌∷◌ user) (
          kept (hash new)
          ∙ ap (λ j. hashed_to nick j o) (sym at)
          ∙ sym (hashed_to-put nick i user new o out)))
  | inr miss ↦
      let other : (hash new == i) ≡ false = ground arith in
      rw (miss, ==-refl user, other) (kept i ∙ sym (hashed_to-put nick i user new o out))
]

unlinked_kept :
    (us : Users) (o : List ℕ) (user : ℕ)
    → Tracks us o
    → (i : ℕ) → (unlink_user user us).userlist i ≡ hashed_to us.nick i (unlinked user o)
unfolding unlink_user
unlinked_kept us o user h i = elim (Bool-cases (i == hash (us.nick user))) [
  | inl hit ↦ rw hit (
      ap (unlinked user) (h.kept (hash (us.nick user)))
      ∙ sym (hashed_to-unlinked us.nick (hash (us.nick user)) user o)
      ∙ ap (λ j. hashed_to us.nick j (unlinked user o))
          (sym ((==_iff i (hash (us.nick user))).0 hit)))
  | inr miss ↦ rw miss (
      h.kept i
      ∙ sym (hashed_to-Without us.nick i user o miss)
      ∙ sym (hashed_to-unlinked us.nick i user o))
]

less-Without : (n : ℕ) (o : List ℕ) → All (λ v. v < n) o → Without n o
less-Without n [] h = tt
less-Without n (v ∷ o) (p, h) = (ground arith, less-Without n o h)

less-suc : (n : ℕ) (o : List ℕ) → All (λ v. v < n) o → All (λ v. v < n + 1) o
less-suc n [] h = tt
less-suc n (v ∷ o) (p, h) = (omega (arith, p), less-suc n o h)

listed_less : (n user : ℕ) (o : List ℕ) → All (λ v. v < n) o → is_listed user o ≡ true → user < n
unfolding is_listed
listed_less n user [] h e = cc
listed_less n user (v ∷ o) (p, h) e = elim (Bool-cases (v == user)) [
  | inl hit ↦ omega (arith, p, (==_iff v user).0 hit)
  | inr miss ↦ listed_less n user o h (sym (rw (miss, is_listed) refl) ∙ e)
]

new_user-Tracks :
    (nick : Bytes) (us : Users) (o : List ℕ)
    → IsText nick
    → Tracks us o
    → Tracks (new_user nick us) (us.next ∷ o)
unfolding new_user
new_user-Tracks nick us o t h = record {
  kept =
      linked us.nick us.userlist us.next (strscpy nick) o (less-Without us.next o h.fresh) h.kept;
  counted = omega (arith, h.counted);
  most = ground arith;
  fresh = (omega arith, less-suc us.next o h.fresh);
  different = (less-Without us.next o h.fresh, h.different);
  texts = (
    rw (==-refl us.next) (strscpy-IsText nick t),
    put-IsText us.nick us.next (strscpy nick) o (less-Without us.next o h.fresh) h.texts,
  );
}

change_user_nick-Tracks :
    (user : ℕ) (nick : Bytes) (us : Users) (o : List ℕ)
    → IsText nick
    → is_listed user o ≡ true
    → Tracks us o
    → Tracks (change_user_nick user nick us) (user ∷ unlinked user o)
unfolding change_user_nick unlink_user
change_user_nick-Tracks user nick us o t on h = record {
  kept =
      linked us.nick (unlink_user user us).userlist user (strscpy nick) (unlinked user o)
        (unlinked-Without user o) (unlinked_kept us o user h);
  counted = h.counted ∙ length-unlinked user o h.different on ∙ omega arith;
  most = h.most;
  fresh = (listed_less us.next user o h.fresh on, unlinked-All (λ v. v < us.next) user o h.fresh);
  different = (unlinked-Without user o, unlinked-Distinct user o h.different);
  texts = (
    rw (==-refl user) (strscpy-IsText nick t),
    put-IsText us.nick user (strscpy nick) (unlinked user o) (unlinked-Without user o)
        (unlinked-All (λ v. IsText (us.nick v)) user o h.texts),
  );
}

delete_user-Tracks :
    (user : ℕ) (us : Users) (o : List ℕ)
    → is_listed user o ≡ true
    → Tracks us o
    → Tracks (delete_user user us) (unlinked user o)
unfolding delete_user unlink_user
delete_user-Tracks user us o on h = record {
  kept = unlinked_kept us o user h;
  counted = omega (arith, h.counted, length-unlinked user o h.different on);
  most = omega (arith, h.most);
  fresh = unlinked-All (λ v. v < us.next) user o h.fresh;
  different = unlinked-Distinct user o h.different;
  texts = unlinked-All (λ v. IsText (us.nick v)) user o h.texts;
}

-- Users that come, change their nicks and leave keep the table: every user stands in the list of his
-- nick's hash and only there, and the counts are right.
pub Reached-Tracks : (us : Users) (o : List ℕ) → Reached us o → Tracks us o
unfolding hashed_to
Reached-Tracks _ _ start = record {
  kept = λ i. refl;
  counted = refl;
  most = omega arith;
  fresh = tt;
  different = tt;
  texts = tt;
}
Reached-Tracks _ _ (comes {us} {o} nick t r) = new_user-Tracks nick us o t (Reached-Tracks us o r)
Reached-Tracks _ _ (changes {us} {o} user nick t on r) =
    change_user_nick-Tracks user nick us o t on (Reached-Tracks us o r)
Reached-Tracks _ _ (goes {us} {o} user on r) =
    delete_user-Tracks user us o on (Reached-Tracks us o r)

-- `finduser` finds the user whom a search through all users finds, the last that came or changed his nick
-- first.
pub finduser-search_user :
    (us : Users) (o : List ℕ) (nick : Bytes)
    → Reached us o
    → IsText nick
    → finduser us nick ≡ search_user us.nick nick o
unfolding finduser
finduser-search_user us o nick r t =
    let h = Reached-Tracks us o r in
    ap (search_user us.nick nick) (h.kept (hash nick))
    ∙ search_user-hashed_to us.nick nick o t h.texts
