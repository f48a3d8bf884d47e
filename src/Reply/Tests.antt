-- ===== src/Reply/Tests.antt =====
-- Runs of the reply functions.
use dev_hub.Base.{◌≡◌, refl, some, [], ◌∷◌, codes}
use dev_hub.Reply.{split, solder_reply}

split_skips : split (codes "a,,bc,") 44 ≡ codes "a" ∷ codes "bc" ∷ []
unfolding split
split_skips = refl

solder_answer :
    solder_reply (codes "0800UL00012345678901") ≡ some (codes "{\"Press\":123,\"time\":56789}")
unfolding solder_reply
solder_answer = refl
