-- ===== src/Channels/Founders.antt =====
-- src/channels.rs: the founder of a channel, from its registration on, and a line of the file.
use chonkline.Base.{
  ◌≡◌, refl, Bool, not, ◌&&◌, [], ◌==◌, if◌then◌else◌, Text, text_eq, contains_key, lookup-insert,
  Bool-cases, inl, inr,
}
use chonkline.Bans.{Disk}
use chonkline.State.Casemap.{norm_nick}
use chonkline.Channels.{ChanReg, ChannelRegistry, register, is_founder}

abbrev pub stays_if : Bool → Text → Text → Text → ChannelRegistry → Bool
stays_if fresh key founder account r =
    if fresh then norm_nick founder == norm_nick account else is_founder key account r

-- After registering `key` for `founder`, successful or not, an account is the founder of a channel exactly
-- when: for the channel of the same folded name, where none was registered under it, the account's name
-- folds to the founder's; for every other channel, and where the name was taken, it was so before.
pub register-is_founder :
    (key display founder : Text) (r : ChannelRegistry) (d : Disk) (other account : Text)
    → is_founder other account (register key display founder (r, d)).0.0
      ≡ stays_if
          (not (contains_key (norm_nick key) r.map) && (norm_nick key == norm_nick other))
          other
          founder
          account
          r
unfolding register is_founder
register-is_founder key display founder r d other account =
    elim (Bool-cases (contains_key (norm_nick key) r.map)) [
      | inl h ↦ rw (h, register) refl
      | inr h ↦ elim (Bool-cases (norm_nick key == norm_nick other)) [
        | inl e ↦
            rw
              (
                h,
                register,
                is_founder,
                lookup-insert (norm_nick key) (norm_nick other) reg r.map,
                e,
              )
              refl
        | inr e ↦
            rw
              (
                h,
                register,
                is_founder,
                lookup-insert (norm_nick key) (norm_nick other) reg r.map,
                e,
              )
              refl
      ]
    ]
  where
    reg : ChanReg
    reg = record { display = display; founder_display = founder; topic = [] }
