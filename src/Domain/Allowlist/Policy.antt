-- ===== src/Domain/Allowlist/Policy.antt =====
-- crates/kamiroh-domain/src/allowlist.rs: histories of edits of an allowlist.
use kamiroh.Common.{[], ◌∷◌, true, false, Bool, List, ite, ◌≡◌, refl}
use kamiroh.Domain.Address.{EndpointId, EndpointId-discrete}
use kamiroh.Domain.Allowlist.{Allowlist, allows, admit, revoke}
use kamiroh.Common.Sets.{contains-insert, contains-remove}

pub data Edit : Type 0 where
  admits revokes : EndpointId → Edit

unfoldable pub edit : Allowlist → Edit → Allowlist
edit l (admits e) = admit l e
edit l (revokes e) = revoke l e

unfoldable pub edits : Allowlist → List Edit → Allowlist
edits l [] = l
edits l (x ∷ xs) = edits (edit l x) xs

-- What the last edit that names an endpoint said of it; `before` if none does.
unfoldable pub last_word : Bool → List Edit → EndpointId → Bool
last_word before [] e = before
last_word before (admits x ∷ xs) e = last_word (ite (EndpointId-discrete x e) true before) xs e
last_word before (revokes x ∷ xs) e = last_word (ite (EndpointId-discrete x e) false before) xs e

-- After any edits an allowlist allows exactly the endpoints whose last edit was an admission, and
-- those that no edit names as before. Edits of other endpoints and repeated edits do not matter.
pub allows-edits :
    (xs : List Edit) (l : Allowlist) (e : EndpointId)
    → allows (edits l xs) e ≡ last_word (allows l e) xs e
unfolding edits edit last_word allows admit revoke
allows-edits [] l e = refl
allows-edits (admits x ∷ xs) l e =
    rw (← contains-insert EndpointId-discrete x e l.endpoints) (allows-edits xs (admit l x) e)
allows-edits (revokes x ∷ xs) l e =
    rw (← contains-remove EndpointId-discrete x e l.endpoints) (allows-edits xs (revoke l x) e)
