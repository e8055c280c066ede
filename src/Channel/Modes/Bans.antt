-- ===== src/Channel/Modes/Bans.antt =====
-- channels.c `add_ban` and `del_ban`, and the status of a user: what is set is found again.
use k9_chatnet.Common.{
  ℕ, ◌≡◌, refl, sym, ap, ◌∙◌, inl, inr, Bool, true, false, List, [], ◌∷◌, ◌++◌, Bytes, ◌==◌,
  ==-refl, Bool-cases, All,
}
use k9_chatnet.Channel.{Member, is_on_list, is_on_chan}
use k9_chatnet.Channel.Modes.{
  Services, Chan, UserMode, op, voice, set_status, has_status, chan_set_user_status,
  chan_has_user_status, same_bytes, remove_ban, add_ban, del_ban,
}

same_bytes_refl : (s : Bytes) → same_bytes s s ≡ true
same_bytes_refl [] = refl
same_bytes_refl (c ∷ s) = rw (==-refl c) (same_bytes_refl s)

remove_ban-append :
    (mask : Bytes) (bs : List Bytes)
    → All (λ b. same_bytes b mask ≡ false) bs
    → remove_ban mask (bs ++ mask ∷ []) ≡ bs
unfolding remove_ban
remove_ban-append mask [] h = rw (same_bytes_refl mask) refl
remove_ban-append mask (b ∷ bs) (other, h) = rw other (ap (◌∷◌ b) (remove_ban-append mask bs h))

-- A ban that is set and not refused, and was not there, is taken away again: the bans are as before, but
-- for what ChanServ sets again.
pub del_ban-add_ban :
    (svc : Services) (mask : Bytes) (ch : Chan)
    → svc.is_refused mask ≡ false
    → All (λ b. same_bytes b mask ≡ false) ch.bans
    → del_ban svc mask (add_ban svc mask ch) ≡ record ch { bans = svc.stick mask ch.bans }
unfolding add_ban del_ban
del_ban-add_ban svc mask ch free new =
    rw free (ap (λ bs. record ch { bans = svc.stick mask bs }) (remove_ban-append mask ch.bans new))

has_status-set_status :
    (um : UserMode) (b : Bool) (c : ℕ) (ms : List Member)
    → is_on_list c ms ≡ true
    → has_status um c (set_status um b c ms) ≡ b
unfolding has_status set_status is_on_list
has_status-set_status um b c [] h = cc
has_status-set_status op b c (m ∷ ms) h = elim (Bool-cases (m.chan == c)) [
  | inl hit ↦ rw (hit, hit) refl
  | inr miss ↦
      rw (miss, miss) (has_status-set_status op b c ms (sym (rw (miss, is_on_list) refl) ∙ h))
]
has_status-set_status voice b c (m ∷ ms) h = elim (Bool-cases (m.chan == c)) [
  | inl hit ↦ rw (hit, hit) refl
  | inr miss ↦
      rw (miss, miss) (has_status-set_status voice b c ms (sym (rw (miss, is_on_list) refl) ∙ h))
]

-- The status that is set on a channel on which the user is, is the one that he has there.
pub chan_has-set_user_status :
    (um : UserMode) (b : Bool) (user : ℕ) (ch : Chan)
    → is_on_chan ch.id user ch.net ≡ true
    → chan_has_user_status um user (chan_set_user_status um b user ch) ≡ b
unfolding chan_has_user_status chan_set_user_status is_on_chan
chan_has-set_user_status um b user ch h =
    rw (==-refl user) (has_status-set_status um b ch.id (ch.net.chans user) h)
