-- ===== src/Channel/Linked.antt =====
-- channels.c: the lists of a user's channels and of a channel's users say the same.
use k9_chatnet.Common.{
  ℕ, ◌+◌, ◌≤◌, ◌<◌, ◌≡◌, refl, sym, ap, ap₂, subst, ◌∙◌, inl, inr, false, List, [], ◌∷◌, Bytes,
  Option, none, some, arith, length, ◌==◌, ==_iff, ==-refl, if◌then◌else◌, Bool-cases, All, take,
}
use k9_chatnet.Text.Case.{same_text}
use k9_chatnet.Channel.{
  Member, Net, update, hash, find_in, findchan, chan_create, link_user, join_found,
  join_user_update, remove_user, deluser_found, chan_deluser, remove_member, leave_found, leave,
  deluser_all, leave_all,
}
use k9_chatnet.Channel.Counts.{
  bit, times_in, times_on, update_same, update_measure, bits, update_less, update_from, Removed,
  remove_user-Removed, RemovedMember, remove_member-RemovedMember,
}

-- A user is as often in a channel's list as the channel is in his, the count is the length of the list,
-- and channels that are not allocated are in no list.
pub record IsLinked (net : Net) : Type 0 where
  pub both : (user c : ℕ) → times_in c (net.chans user) ≡ times_on user (net.users c)
  pub counted : (c : ℕ) → net.usercount c ≡ length (net.users c)
  pub fresh : (c : ℕ) → net.next ≤ c → net.users c ≡ []
  pub listed : (i : ℕ) → All (λ c. c < net.next) (net.chanlist i)

find_in_less :
    (name : ℕ → Bytes) (chan : Bytes) (n : ℕ) (cs : List ℕ) (c : ℕ)
    → All (λ d. d < n) cs
    → find_in name chan cs ≡ some c
    → c < n
unfolding find_in
find_in_less name chan n [] c h e = cc
find_in_less name chan n (d ∷ cs) c h e = elim (Bool-cases (same_text (name d) chan)) [
  | inl here ↦
      let same : some d ≡ some c = sym (rw (here, find_in) refl) ∙ e in
      let here : d ≡ c = cc in subst (λ k. k < n) here h.0
  | inr there ↦ find_in_less name chan n cs c h.1 (sym (rw (there, find_in) refl) ∙ e)
]

link_user-IsLinked :
    (user c : ℕ) (net : Net) → c < net.next → IsLinked net → IsLinked (link_user user c net)
unfolding link_user times_in times_on
link_user-IsLinked user c net less h = record {
  both = λ u d.
      update_measure (times_in d) net.chans user _ (bit (c == d)) u refl
      ∙ ap₂ ◌+◌ (bits u user c d) (h.both u d)
      ∙ sym (update_measure (times_on u) net.users c _ (bit (user == u)) d refl);
  counted = λ d.
      update_measure (λ n. n) net.usercount c _ 1 d (omega arith)
      ∙ ap (λ n. (if d == c then 1 else 0) + n) (h.counted d)
      ∙ sym (update_measure length net.users c _ 1 d (omega arith));
  fresh = λ d out. let other : (d == c) ≡ false = ground arith in rw other (h.fresh d out);
  listed = h.listed;
}

weaken : {P Q : ℕ → Type 0} → ((c : ℕ) → P c → Q c) → (cs : List ℕ) → All P cs → All Q cs
weaken f [] h = tt
weaken f (c ∷ cs) (h, hs) = (f c h, weaken f cs hs)

chan_create-IsLinked : (chan : Bytes) (net : Net) → IsLinked net → IsLinked (chan_create chan net)
unfolding chan_create times_on
chan_create-IsLinked chan net h = record {
  both = λ u d. h.both u d ∙ ap (times_on u) (sym (unallocated d));
  counted = λ d. elim (Bool-cases (d == net.next)) [
    | inl new ↦ rw new refl
    | inr old ↦ rw old (h.counted d)
  ];
  fresh = λ d out. unallocated d ∙ h.fresh d (omega arith);
  listed = λ i. elim (Bool-cases (i == hash (take 63 chan))) [
    | inl new ↦ rw new (
      omega arith,
      weaken (λ c p. omega (arith, p)) (net.chanlist (hash (take 63 chan)))
          (h.listed (hash (take 63 chan))),
    )
    | inr old ↦ rw old (weaken (λ c p. omega (arith, p)) (net.chanlist i) (h.listed i))
  ];
}
  where
    unallocated : (d : ℕ) → update net.users net.next [] d ≡ net.users d
    unallocated d = elim (Bool-cases (d == net.next)) [
      | inl new ↦ rw new (sym (h.fresh d (ground arith)))
      | inr old ↦ rw old refl
    ]

pub join_user_update-IsLinked :
    (user : ℕ) (chan : Bytes) (net : Net) → IsLinked net → IsLinked (join_user_update user chan net)
unfolding join_user_update
join_user_update-IsLinked user chan net h = go (findchan net chan) (λ c e.
    unfold findchan in
    find_in_less net.name chan net.next (net.chanlist (hash chan)) c (h.listed (hash chan)) e)
  where
    go :
        (o : Option ℕ)
        → ((c : ℕ) → o ≡ some c → c < net.next)
        → IsLinked (join_found user chan net o)
    go none less =
        unfold chan_create in
        link_user-IsLinked user net.next (chan_create chan net) (omega arith)
          (chan_create-IsLinked chan net h)
    go (some c) less = link_user-IsLinked user c net (less c refl) h

-- The state with another list of channels for a user.
abbrev with_chans : ℕ → List Member → Net → Net
with_chans user ms net = record net { chans = update net.chans user ms }

-- A user that is taken off a channel, and the channel off his list.
chan_deluser-IsLinked :
    (user c : ℕ) (net : Net) (ms l : List Member)
    → ((d : ℕ) → times_in d ms ≡ bit (c == d) + times_in d l)
    → IsLinked (with_chans user ms net)
    → IsLinked (with_chans user l (chan_deluser user c net))
unfolding chan_deluser
chan_deluser-IsLinked user c net ms l taken h =
    go (remove_user user (net.users c)) (remove_user-Removed user (net.users c))
  where
    on_it : times_on user (net.users c) ≡ 1 + times_in c l
    on_it =
        sym (h.both user c)
        ∙ ap (times_in c) (update_same net.chans user ms)
        ∙ taken c
        ∙ ap (λ b. bit b + times_in c l) (==-refl c)

    go :
        (o : Option (List ℕ))
        → Removed user (net.users c) o
        → IsLinked (with_chans user l (deluser_found c net o))
    go none r = absurd (omega (arith, r, on_it))
    go (some us) (shorter, r) = record {
      both = λ u d.
          let before : times_in d (update net.chans user ms u) ≡ times_on u (net.users d) =
            h.both u d in
          omega (
            arith,
            before,
            bits u user c d,
            update_less (times_in d) net.chans user ms l (bit (c == d)) u (taken d),
            update_from (times_on u) net.users c us (bit (user == u)) d (r u),
          );
      counted = λ d. elim (Bool-cases (d == c)) [
        | inl hit ↦ rw hit (omega (arith, h.counted c, shorter))
        | inr miss ↦ rw miss (h.counted d)
      ];
      fresh = λ d out. elim (Bool-cases (d == c)) [
        | inl hit ↦ absurd (
            omega (
              arith,
              shorter,
              ap length (h.fresh d out),
              ap (λ k. length (net.users k)) ((==_iff d c).0 hit),
            ))
        | inr miss ↦ rw miss (h.fresh d out)
      ];
      listed = h.listed;
    }

-- Writing back what is there changes nothing.
with_chans-IsLinked :
    (user : ℕ) (net : Net) → IsLinked net → IsLinked (with_chans user (net.chans user) net)
with_chans-IsLinked user net h = record {
  both = λ u d. elim (Bool-cases (u == user)) [
    | inl hit ↦
        rw hit (ap (λ v. times_in d (net.chans v)) (sym ((==_iff u user).0 hit)) ∙ h.both u d)
    | inr miss ↦ rw miss (h.both u d)
  ];
  counted = h.counted;
  fresh = h.fresh;
  listed = h.listed;
}

pub leave-IsLinked :
    (user : ℕ) (chan : Bytes) (net : Net) → IsLinked net → IsLinked (leave user chan net)
unfolding leave
leave-IsLinked user chan net h =
    go (remove_member net.name chan (net.chans user))
      (remove_member-RemovedMember net.name chan (net.chans user))
  where
    go :
        (o : Option (ℕ × List Member))
        → RemovedMember (net.chans user) o
        → IsLinked (leave_found user net o)
    go none r = h
    go (some (c, l)) r =
        chan_deluser-IsLinked user c net (net.chans user) l r (with_chans-IsLinked user net h)

deluser_all-IsLinked :
    (user : ℕ) (ms : List Member) (net : Net)
    → IsLinked (with_chans user ms net)
    → IsLinked (with_chans user [] (deluser_all user ms net))
unfolding deluser_all times_in
deluser_all-IsLinked user [] net h = h
deluser_all-IsLinked user (m ∷ ms) net h =
    deluser_all-IsLinked user ms (chan_deluser user m.chan net)
      (chan_deluser-IsLinked user m.chan net (m ∷ ms) ms (λ d. refl) h)

pub leave_all-IsLinked : (user : ℕ) (net : Net) → IsLinked net → IsLinked (leave_all user net)
unfolding leave_all
leave_all-IsLinked user net h =
    deluser_all-IsLinked user (net.chans user) net (with_chans-IsLinked user net h)
