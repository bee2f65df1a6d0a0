-- ===== src/Ring.antt =====
-- jk_list.h: rings of nodes that are linked both ways.
-- A node is an address of the caller's memory, which is always valid.
pub mod Segments
pub mod Mirror
pub mod Visits
mod Tests
use just_kit.Prelude.{
  ℕ, zero, suc, Bool, List, [], ◌∷◌, Run, ok, out_of_fuel, ◌>>=◌, ◌==◌, if◌then◌else◌,
}

-- `jk_list_s`, of every node
pub record Links : Type 0 where
  pub prev : ℕ → ℕ
  pub next : ℕ → ℕ

abbrev pub put : (ℕ → ℕ) → ℕ → ℕ → ℕ → ℕ
put f a v b = if a == b then v else f b

abbrev pub set_prev : ℕ → ℕ → Links → Links
set_prev a v l = record l { prev = put l.prev a v }

abbrev pub set_next : ℕ → ℕ → Links → Links
set_next a v l = record l { next = put l.next a v }

-- `jk_list_init`
pub init : ℕ → Links → Links
init head l = set_prev head head (set_next head head l)

-- `jk_list_add`, statement by statement
pub add : ℕ → ℕ → Links → Links
add head node l =
    let l1 = set_prev node (l.prev head) l in
    let l2 = set_next node head l1 in
    let l3 = set_next (l2.prev head) node l2 in set_prev head node l3

-- `jk_list_del`
pub del : ℕ → Links → Links
del node l =
    let l1 = set_next (l.prev node) (l.next node) l in set_prev (l1.next node) (l1.prev node) l1

-- The nodes that the loops of `jk_list_for_each` and `jk_list_for_each2` visit, from one on.
pub visit : ℕ → (ℕ → ℕ) → ℕ → ℕ → Run (List ℕ)
visit zero step head node = out_of_fuel
visit (suc fuel) step head node =
    let rest = visit fuel step head (step node) >>= λ nodes. ok (node ∷ nodes) in
    if node == head then ok [] else rest

pub for_each : ℕ → ℕ → Links → Run (List ℕ)
for_each fuel head l = visit fuel l.next head (l.next head)

pub for_each2 : ℕ → ℕ → Links → Run (List ℕ)
for_each2 fuel head l = visit fuel l.prev head (l.prev head)

-- `jk_list_for_each_safe` and `jk_list_for_each2_safe` from a node on, where the node after it is known,
-- with what the body does to each node.
pub visit_safe :
    ℕ → (Links → ℕ → ℕ) → (ℕ → Links → Links) → (head node n : ℕ) → Links → Run (List ℕ × Links)
visit_safe zero step body head node n l = out_of_fuel
visit_safe (suc fuel) step body head node n l =
    let l' = body node l in
    let rest = visit_safe fuel step body head n (step l' n) l' >>= λ r. ok (node ∷ r.0, r.1) in
    if node == head then ok ([], l) else rest

pub for_each_safe : ℕ → (ℕ → Links → Links) → ℕ → Links → Run (List ℕ × Links)
for_each_safe fuel body head l =
    visit_safe fuel (λ k. k.next) body head (l.next head) (l.next (l.next head)) l

pub for_each2_safe : ℕ → (ℕ → Links → Links) → ℕ → Links → Run (List ℕ × Links)
for_each2_safe fuel body head l =
    visit_safe fuel (λ k. k.prev) body head (l.prev head) (l.prev (l.prev head)) l
