-- ===== src/Cmds/Membership.antt =====
-- src/cmds.rs: the users' lists and the channels' members, through the edits that the handlers make.
use chonkline.Base.{
  ℕ, ◌≡◌, refl, sym, ap, ◌∙◌, Bool, Option, none, some, nat_beq, ◌==◌, Text, text_eq, nat_eq,
  contains, lookup, Bool-cases, inl, inr, text_beq_iff,
}
use chonkline.State.Casemap.{norm_nick}
use chonkline.State.Client.{Cx}
use chonkline.State.Channel.{Chn}
use chonkline.State.Server.{ServerState, find_by_id, change_chan}
use chonkline.Cmds.{World}
use chonkline.Cmds.Lookups.{
  map_some, find_by_id_lem, find_by_id-change_chan, lookup-change_chan, change_chan-IsDistinct,
}
use chonkline.Cmds.Mirror.{IsMirrored, Lists, Seats, Edited, seats, Edited-IsMirrored}
use chonkline.Cmds.Frames.{Frame}

-- the user of a command is there, and lists and members are in step
pub record IsGood (id : ℕ) (st : ServerState) : Type 0 where
  pub there : (u : Cx) × (find_by_id id st ≡ some u)
  pub mirror : IsMirrored st

Frame-find_by_id : {w v : World} → Frame w v → (id : ℕ) → find_by_id id v.st ≡ find_by_id id w.st
Frame-find_by_id {w} {v} f id =
    rw (find_by_id_lem id v.st, find_by_id_lem id w.st, f.users, f.unreg) refl

pub Frame-IsGood : (id : ℕ) {w v : World} → Frame w v → IsGood id w.st → IsGood id v.st
Frame-IsGood id {w} {v} f g = record {
  there = (g.there.0, Frame-find_by_id f id ∙ g.there.1);
  mirror = record {
    mirrored = λ other key. rw (Frame-find_by_id f other, f.chans) (g.mirror.mirrored other key);
    distinct = rw f.chans g.mirror.distinct;
  };
}

-- a change of a channel that leaves its members
pub rest-seats :
    (norm : Text) (f : Chn → Chn) (st : ServerState)
    → ((c : Chn) → (f c).members ≡ c.members)
    → (other : ℕ) (key : Text)
    → seats other (lookup key (change_chan norm f st).chans) ≡ seats other (lookup key st.chans)
rest-seats norm f st same other key =
    rw (lookup-change_chan norm key f st) (elim (Bool-cases (norm_nick norm == key)) [
      | inl e ↦ rw (e, (text_beq_iff (norm_nick norm) key).0 e) (keeps (lookup key st.chans))
      | inr e ↦ rw e refl
    ])
  where
    keeps : (o : Option Chn) → seats other (map_some f o) ≡ seats other o
    keeps none = refl
    keeps (some c) = ap (contains other) (same c)

pub rest-IsGood :
    (id : ℕ) (norm : Text) (f : Chn → Chn) (st : ServerState)
    → ((c : Chn) → (f c).members ≡ c.members)
    → IsGood id st
    → IsGood id (change_chan norm f st)
rest-IsGood id norm f st same g = record {
  there = (g.there.0, find_by_id-change_chan id norm f st ∙ g.there.1);
  mirror = record {
    mirrored = λ other key.
        rw (find_by_id-change_chan other norm f st)
          (g.mirror.mirrored other key ∙ sym (rest-seats norm f st same other key));
    distinct = change_chan-IsDistinct norm f st g.mirror.distinct;
  };
}

-- a user entering or leaving a channel
pub Edited-IsGood :
    (id who : ℕ) (norm : Text) (on : Bool) (g : Cx → Cx) (f : Chn → Chn) (st st' : ServerState)
    (u : Cx) (c : Chn)
    → Edited who norm g f st st'
    → Lists norm on g
    → Seats who on f
    → find_by_id who st ≡ some u
    → lookup norm st.chans ≡ some c
    → IsGood id st
    → IsGood id st'
Edited-IsGood id who norm on g f st st' u c e l s hu hc w = record {
  there = elim (Bool-cases (nat_beq who id)) [
    | inl h ↦ (g u, e.found id ∙ rw (h, hu) refl)
    | inr h ↦ (w.there.0, e.found id ∙ rw h w.there.1)
  ];
  mirror = Edited-IsMirrored who norm on g f st st' u c e l s hu hc w.mirror;
}

pub record IsFine (id : ℕ) (w : World) : Type 0 where
  pub good : IsGood id w.st

pub Frame-IsFine : (id : ℕ) {w v : World} → Frame w v → IsFine id w → IsFine id v
Frame-IsFine id f g = record { good = Frame-IsGood id f g.good }
