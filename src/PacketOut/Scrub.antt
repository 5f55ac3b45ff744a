-- ===== src/PacketOut/Scrub.antt =====
-- lang/python/frenetic/syntax.py: what PacketOut makes of its list of policies.
use mathlib.Core.List.{flatten, append-nil}
use frenetic.Base.{ℕ, true, ◌≡◌, refl, ap, ◌∙◌, sym, List, [], ◌∷◌, map, ok, traverse}
use frenetic.Syntax.Ast.{Policy}
use frenetic.PacketOut.Defs.{
  Item, PacketOut, output, policy, mod_port, is_port_output, scrub, scrub_all,
}

scrub-outputs : (ns : List ℕ) → traverse scrub (map output ns) ≡ ok (map (λ n. mod_port n ∷ []) ns)
unfolding scrub
scrub-outputs [] = refl
scrub-outputs (n ∷ ns) = rw (scrub-outputs ns) refl

flatten-singletons : (ns : List ℕ) → flatten (map (λ n. mod_port n ∷ []) ns) ≡ map mod_port ns
unfolding flatten
flatten-singletons [] = refl
flatten-singletons (n ∷ ns) = ap (◌∷◌ (mod_port n)) (flatten-singletons ns)

-- A SetPort and the list of Outputs of its ports scrub to the same policies.
pub scrub_all-set_port :
    (ns : List ℕ) → scrub_all (map output ns) ≡ scrub_all (Item.policy (Policy.set_port ns) ∷ [])
unfolding scrub_all
scrub_all-set_port ns =
    rw (scrub-outputs ns) (ap ok (flatten-singletons ns ∙ sym (append-nil (map mod_port ns))))

-- A policy that may stand in a packet-out message: a Mod of a header other than the location, a Mod of a
-- physical location, or a SinglePolicy, of which nothing is asked.
abbrev pub IsSent : Policy → Type 0
IsSent (Policy.mod' hv) = is_port_output hv ≡ true
IsSent (Policy.single_policy p) = Unit
IsSent _ = ⊥
