-- ===== src/Channels/Examples.antt =====
-- src/channels.rs at a concrete registry.
use chonkline.Base.{◌≡◌, none, true, not, ◌&&◌, [], text_eq, ◌==◌, codes, contains_key}
use chonkline.Bans.{Disk}
use chonkline.State.Casemap.{norm_nick}
use chonkline.Channels.{ChannelRegistry, register, is_founder}
use chonkline.Channels.Founders.{register-is_founder, stays_if}

abbrev nothing : ChannelRegistry
nothing = record { path = none; map = [] }

abbrev disk : Disk
disk = record { content = none; writable = true }

register-is_founder_example :
    is_founder
      (codes "#A")
      (codes "ALICE")
      (register (codes "#a") (codes "#a") (codes "Alice") (nothing, disk)).0.0
    ≡ stays_if
        (not (contains_key (norm_nick (codes "#a")) nothing.map)
          && (norm_nick (codes "#a") == norm_nick (codes "#A")))
        (codes "#A")
        (codes "Alice")
        (codes "ALICE")
        nothing
register-is_founder_example =
    register-is_founder (codes "#a") (codes "#a") (codes "Alice") nothing disk (codes "#A")
      (codes "ALICE")
