-- ===== src/Network/Examples.antt =====
-- src/network.rs: a small network, and the theorems about it at concrete users and servers.
use chonkline.Base.{◌≡◌, ◌↔◌, refl, true, false, none, [], Text, codes, contains, lookup, text_eq}
use chonkline.Network.{
  Network, RemoteServer, RemoteUser, new, add_user, add_server, rename_user, gone_from, values,
}
use chonkline.Network.Locals.{IsMinted}
use chonkline.Network.Nicks.{IsIndexed}
use chonkline.Network.Splits.{Behind, gone_from_iff}
use chonkline.Network.Reach.{Reaches, start, sign_on, rename, reached-IsConsistent}

abbrev server : Text → Text → RemoteServer
server sid via = record { sid = sid; name = sid; desc = []; hop = 1; via = via; bursting = false }

abbrev ann : RemoteUser
ann = record {
  uuid = codes "1INAAAAAB";
  sid = codes "1IN";
  nick = codes "Ann";
  nick_key = codes "ann";
  user = codes "ann";
  host = codes "h";
  real_host = codes "h";
  realname = codes "Ann";
  ts = 7;
  modes = codes "+i";
  chans = [];
  away = none;
  oper = false;
}

abbrev empty : Network
empty = new (codes "9CH")

abbrev two_servers : Network
two_servers =
    add_server (server (codes "3IN") (codes "1IN"))
      (add_server (server (codes "1IN") (codes "9CH")) empty)

abbrev with_ann : Network
with_ann = add_user ann empty

empty-reached : Reaches empty
empty-reached = start (codes "9CH")

with_ann-reached : Reaches with_ann
unfolding lookup
with_ann-reached = sign_on ann empty-reached refl

reached-IsConsistent_example :
    IsIndexed (rename_user (codes "1INAAAAAB") (codes "Bo") (codes "bo") with_ann).0
    × IsMinted (rename_user (codes "1INAAAAAB") (codes "Bo") (codes "bo") with_ann).0
reached-IsConsistent_example =
    reached-IsConsistent (rename_user (codes "1INAAAAAB") (codes "Bo") (codes "bo") with_ann).0
      (rename (codes "1INAAAAAB") (codes "Bo") (codes "bo") with_ann-reached)

gone_from_iff_example :
    (contains (codes "3IN") (gone_from (codes "1IN") two_servers) ≡ true)
    ↔ Behind (values two_servers.servers) (codes "1IN") (codes "3IN")
gone_from_iff_example = gone_from_iff (codes "1IN") two_servers (codes "3IN")
