-- ===== src/NodeRemove/Member.antt =====
-- Which etcd member and which etcd pod `remove` picks (cli/internal/bootstrap/noderemove/remove.go).
use mathlib.Core.List.{append_assoc}
use kube_dc_public.Prelude.{
  ◌≡◌, refl, ap, true, false, Option, none, some, List, [], ◌∷◌, ◌++◌, arith, ◌⊎◌, inl, inr, All,
  ◌≢◌, Bool-cases, Option-cases,
}
use kube_dc_public.Prelude.Text.{
  Text, split, trim_space, text_eq, text_eq→eq, text_eq_refl, has_prefix_append, has_prefix→append,
}
use kube_dc_public.NodeRemove.{
  EtcdPod, comma, dash, newline, names_node, member_of_fields, member_of_lines, member_id_of,
  peer_pod_of,
}

-- The name is the node's, or continues it with a dash.
abbrev pub Names : Text → Text → Type 0
Names node name = (name ≡ node) ⊎ ((s : Text) × (name ≡ (node ++ dash) ++ s))

names_node-Names : (node name : Text) → names_node node name ≡ true → Names node name
unfolding names_node
names_node-Names node name h = elim (Bool-cases (text_eq name node)) [
  | inl e ↦ inl (text_eq→eq name node e)
  | inr e ↦ inr (has_prefix→append (node ++ dash) name (ground arith))
]

-- A line of at least three fields: the third names the node, and the first is the id.
abbrev pub LineNames : Text → Text → Text → Type 0
LineNames node id line =
    (a b c : Text) × (more : List Text) × (split line comma ≡ a ∷ b ∷ c ∷ more)
    × Names node (trim_space c)
    × (id ≡ trim_space a)

line_names :
    (node id line : Text) (fs : List Text)
    → split line comma ≡ fs
    → member_of_fields node fs ≡ some id
    → LineNames node id line
unfolding member_of_fields
line_names node id line [] e h = cc
line_names node id line (a ∷ []) e h = cc
line_names node id line (a ∷ b ∷ []) e h = cc
line_names node id line (a ∷ b ∷ c ∷ more) e h =
    (a, b, c, more, e, names_node-Names node (trim_space c) (ground arith), ground arith)

-- The member that is picked stands on the first line of the list that gives one.
abbrev pub FirstLine : Text → Text → List Text → Type 0
FirstLine node id ls =
    (before : List Text) × (line : Text) × (after : List Text) × (ls ≡ before ++ (line ∷ after))
    × All (λ l. member_of_fields node (split l comma) ≡ none) before
    × LineNames node id line

member_of_lines-FirstLine :
    (node id : Text) (ls : List Text) → member_of_lines node ls ≡ some id → FirstLine node id ls
unfolding member_of_lines
member_of_lines-FirstLine node id [] h = cc
member_of_lines-FirstLine node id (l ∷ ls) h =
    elim (Option-cases (member_of_fields node (split l comma))) [
      | inl e ↦
          let (before, line, after, cut, skipped, named) =
            member_of_lines-FirstLine node id ls (ground arith) in
          (l ∷ before, line, after, ap (λ k. l ∷ k) cut, (e, skipped), named)
      | inr (i, e) ↦ ([], l, ls, refl, tt, line_names node id l (split l comma) refl (ground arith))
    ]

-- The id that is picked from etcdctl's output is the first field of the first line whose third
-- field is the node's name or starts with it and a dash.
pub member_id_of-FirstLine :
    (node out id : Text) → member_id_of node out ≡ some id → FirstLine node id (split out newline)
unfolding member_id_of
member_id_of-FirstLine node out id h = member_of_lines-FirstLine node id (split out newline) h

-- The member of a node whose name continues this node's name with a dash passes for this node's.
pub names_node_dashed :
    (node rest hash : Text) → names_node node (((node ++ dash) ++ rest) ++ (dash ++ hash)) ≡ true
unfolding names_node
names_node_dashed node rest hash = ground (
  arith,
  append_assoc (node ++ dash) rest (dash ++ hash),
  has_prefix_append (node ++ dash) (rest ++ (dash ++ hash)),
)

-- The pod is on another node, and each pod before it is on this one.
abbrev pub FirstElsewhere : Text → List EtcdPod → Option Text → Type 0
FirstElsewhere node ps none = All (λ p. p.node_name ≡ node) ps
FirstElsewhere node ps (some pod) =
    (before : List EtcdPod) × (p : EtcdPod) × (after : List EtcdPod) × (ps ≡ before ++ (p ∷ after))
    × All (λ q. q.node_name ≡ node) before
    × (p.node_name ≢ node)
    × (pod ≡ p.name)

FirstElsewhere-cons :
    (node : Text) (p : EtcdPod) (ps : List EtcdPod) (r : Option Text)
    → p.node_name ≡ node
    → FirstElsewhere node ps r
    → FirstElsewhere node (p ∷ ps) r
FirstElsewhere-cons node p ps none e h = (e, h)
FirstElsewhere-cons node p ps (some pod) e (before, q, after, cut, skipped, ne, name) =
    (p ∷ before, q, after, ap (λ k. p ∷ k) cut, (e, skipped), ne, name)

text_ne : (s t : Text) → text_eq s t ≡ false → s ≢ t
text_ne s t h e = ground (arith, text_eq_refl t)

-- The pod that the etcd commands run in is the first one on another node; there is none only if
-- every etcd pod is on this node.
pub peer_pod_of-FirstElsewhere :
    (node : Text) (ps : List EtcdPod) → FirstElsewhere node ps (peer_pod_of node ps)
unfolding peer_pod_of
peer_pod_of-FirstElsewhere node [] = tt
peer_pod_of-FirstElsewhere node (p ∷ ps) = elim (Bool-cases (text_eq p.node_name node)) [
  | inl e ↦ rw e (
      FirstElsewhere-cons node p ps (peer_pod_of node ps) (text_eq→eq p.node_name node e)
        (peer_pod_of-FirstElsewhere node ps))
  | inr e ↦ rw e ([], p, ps, refl, tt, text_ne p.node_name node e, refl)
]
