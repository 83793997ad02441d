-- ===== src/Resolver/Hull.antt =====
-- `build_hull` of frvt/resolver/resolve.py. Python reads a set in an order of its own: `arrange` is
-- that order. The worklist is a stack, whose top is the head of the list.
pub mod Terminates
pub mod Component
pub mod Universe
use versification_tool.Prelude.{
  ℕ, zero, suc, Bool, true, false, ◌&&◌, ◌||◌, Option, none, some, List, [], ◌∷◌, ◌++◌, map, head?,
  ltb, length, if◌then◌else◌, ◌≡◌, ◌↔◌, arith,
}
use versification_tool.Prelude.Equality.{Eq, contains, nat_eq, ◌==◌}
use versification_tool.Resolver.Types.{
  Relation, VerseId, Hop, Result, ok, raised, out_of_fuel, ◌>>=◌, verse_beq, verse_beq_iff,
  verse_eq,
}
use versification_tool.Resolver.Walk.{up_set, down_set, src_of_pivot, piv_of_target}

pub data Kind : Type 0 where
  source pivot target : Kind

pub record Node : Type 0 where
  pub kind : Kind
  pub verse : VerseId

abbrev kind_tag : Kind → ℕ
kind_tag source = 0
kind_tag pivot = 1
kind_tag target = 2

abbrev pub node_beq : Node → Node → Bool
node_beq a b = kind_tag a.kind == kind_tag b.kind && a.verse == b.verse

pub node_beq_iff : (a b : Node) → (node_beq a b ≡ true) ↔ (a ≡ b)
node_beq_iff a b = ground (arith, verse_beq_iff a.verse b.verse)

instance abbrev pub node_eq : Eq Node
node_eq = record { beq = node_beq; beq_iff = node_beq_iff }

abbrev pub node : Kind → VerseId → Node
node k v = record { kind = k; verse = v }

-- The sets that the loop fills.
pub record Hull : Type 0 where
  pub seen : List Node
  pub sources : List VerseId
  pub pivots : List VerseId
  pub targets : List VerseId

abbrev pub no_hull : Hull
no_hull = record { seen = []; sources = []; pivots = []; targets = [] }

-- `seen.add(key)` and the `add` of the branch of the kind
add : Kind → VerseId → Hull → Hull
add source v h = record h { seen = node source v ∷ h.seen; sources = v ∷ h.sources }
add pivot v h = record h { seen = node pivot v ∷ h.seen; pivots = v ∷ h.pivots }
add target v h = record h { seen = node target v ∷ h.seen; targets = v ∷ h.targets }

unfoldable pub visit : Node → Hull → Hull
unfolding add
visit n h = add n.kind n.verse h

-- `worklist.append` of each node in turn
unfoldable pub push_all : List Node → List Node → List Node
push_all [] stack = stack
push_all (n ∷ ns) stack = push_all ns (n ∷ stack)

module _ (arrange : List VerseId → List VerseId) (src_hops tgt_hops : List Hop) where
  -- What a node appends to the worklist.
  linked : Kind → VerseId → Result (List Node)
  linked source v = up_set v src_hops >>= λ ps. ok (map (node pivot) (arrange ps))
  linked pivot v = src_of_pivot v src_hops >>= λ ss. down_set v tgt_hops >>= λ ts.
      ok (map (node source) (arrange ss) ++ map (node target) (arrange ts))
  linked target v = piv_of_target v tgt_hops >>= λ ps. ok (map (node pivot) (arrange ps))

  unfoldable pub neighbours : Node → Result (List Node)
  unfolding linked
  neighbours n = linked n.kind n.verse

  -- `while worklist:`
  unfoldable pub hull_loop : ℕ → List Node → Hull → Result Hull
  hull_loop fuel [] h = ok h
  hull_loop zero (n ∷ stack) h = raised out_of_fuel
  hull_loop (suc fuel) (n ∷ stack) h =
      let skipped = hull_loop fuel stack h in
      let visited = neighbours n >>= λ ns. hull_loop fuel (push_all ns stack) (visit n h) in
      if contains n h.seen then skipped else visited

  unfoldable pub explore : ℕ → List VerseId → Result Hull
  explore fuel members = hull_loop fuel (push_all (map (node source) members) []) no_hull
