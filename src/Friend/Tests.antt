-- ===== src/Friend/Tests.antt =====
-- Two friends, and the theorems applied to them.
use ape_server.Prelude.{◌≡◌, false, List, [], ◌∷◌, Ensures, any, arith}
use ape_server.Outbox.Data.{friend_allows}
use ape_server.Friend.Data.{Operation, Command, ApplicationRow, Db}
use ape_server.Friend.Mutate.{mutate, delete_friend}
use ape_server.Friend.Symmetric.{IsSymmetric, mutate-IsSymmetric, delete_friend-stops}

abbrev two_friends : Db
two_friends = record {
  users = 11 ∷ 12 ∷ [];
  applications = [];
  next_id = 1;
  outbox = record {
    tasks = [];
    next_id = 1;
    friends = record { owner = 11; friend = 12 } ∷ record { owner = 12; friend = 11 } ∷ [];
    deletions = [];
    receipts = [];
    chats = record { conversations = []; unread = [] };
  };
}

abbrev part : Command
part = record {
  operation = Operation.delete_friend;
  actor = 11;
  target = 12;
  application_id = 0;
  message = [];
  accept = false;
}

two_friends-IsSymmetric : IsSymmetric two_friends
unfolding any
two_friends-IsSymmetric a b h = ground (arith, h)

mutate-IsSymmetric_example :
    Ensures (λ (o : Db × List ApplicationRow). IsSymmetric o.0) (mutate part 7 5 two_friends)
mutate-IsSymmetric_example = mutate-IsSymmetric part 7 5 two_friends two_friends-IsSymmetric

delete_friend-stops_example :
    friend_allows 11 12 9 (delete_friend 11 12 7 5 two_friends).outbox ≡ false
delete_friend-stops_example = delete_friend-stops 11 12 7 5 9 two_friends
