-- ===== src/Handbrake/Leaves.antt =====
-- Which presets of a HandBrake document the importer takes: `_iter_handbrake_leaf_presets` and
-- `_normalize_handbrake_dict`.
use vshift.Base.{
  ◌≡◌, refl, sym, ap, ◌∙◌, subst, inl, inr, ◌↔◌, String, Bool, true, false, some, [], ◌∷◌, arith,
  ◌==◌, string_eq, Bool-cases, Option-cases, Holds, Holds-append, Holds-append_left,
  Holds-append_right, if◌then◌else◌,
}
use vshift.Base.Dict.{Dict, lookup, has_key, lookup-insert}
use vshift.Base.Json.{Json, Items, Fields, elements, entries, get_or, truthy}
use vshift.Handbrake.{
  copy_key, normalize_handbrake_dict, node_leaves, iter_leaves, children_leaves, list_leaves,
}

copy_key-lookup :
    (key old new : String) (d : Dict Json)
    → (key == new) ≡ false
    → lookup key (copy_key old new d) ≡ lookup key d
unfolding copy_key
copy_key-lookup key old new d differ = elim (Option-cases (lookup old d)) [
  | inl missing ↦ ground arith
  | inr (j, found) ↦ elim (Bool-cases (has_key new d)) [
    | inl taken ↦ ground arith
    | inr free ↦ ground (arith, lookup-insert key new j d)
  ]
]

-- The keys that make a folder are not touched.
normalize-lookup :
    (key : String) (d : Dict Json)
    → (key == "VideoMultiPass") ≡ false
    → (key == "VideoTurboMultiPass") ≡ false
    → (key == "Optimize") ≡ false
    → lookup key (normalize_handbrake_dict d) ≡ lookup key d
unfolding normalize_handbrake_dict
normalize-lookup key d a b c =
    copy_key-lookup key _ _ _ c ∙ (copy_key-lookup key _ _ _ b ∙ copy_key-lookup key _ _ _ a)

children-lookup :
    (d : Dict Json) → lookup "ChildrenArray" (normalize_handbrake_dict d) ≡ lookup "ChildrenArray" d
unfolding string_eq
children-lookup d = normalize-lookup "ChildrenArray" d refl refl refl

-- Whether a node, after its normalisation, says that it is a folder.
abbrev pub is_folder : Dict Json → Bool
is_folder node = truthy (get_or "Folder" (Json.boolean false) (normalize_handbrake_dict node))

-- `leaf` is a preset below the value: the value itself, normalised, where it is a dict that is no
-- folder, or a preset below one of the children of a folder.
pub data IsLeafOf (leaf : Dict Json) : Json → Type 0 where
  at_node :
      (fs : Fields)
      → is_folder (entries fs) ≡ false
      → leaf ≡ normalize_handbrake_dict (entries fs)
      → IsLeafOf leaf (Json.object fs)
  in_folder :
      (fs : Fields) (js : Items) (j : Json)
      → is_folder (entries fs) ≡ true
      → lookup "ChildrenArray" (normalize_handbrake_dict (entries fs)) ≡ some (Json.array js)
      → Holds j (elements js)
      → IsLeafOf leaf j
      → IsLeafOf leaf (Json.object fs)

-- A preset below one of the values of a list.
abbrev pub IsBelow : Dict Json → Items → Type 0
IsBelow leaf js = (j : Json) × Holds j (elements js) × IsLeafOf leaf j

children_leaves-found :
    (fs : Fields) (js : Items)
    → lookup "ChildrenArray" (entries fs) ≡ some (Json.array js)
    → children_leaves fs ≡ iter_leaves js
unfolding node_leaves
children_leaves-found Fields.end js e = absurd (ground arith)
children_leaves-found (Fields.field k j fs) js e = elim (Bool-cases ("ChildrenArray" == k)) [
  | inl here ↦ ground arith
  | inr other ↦ ground (arith, children_leaves-found fs js)
]

iter_leaves-Holds :
    (leaf : Dict Json) (js : Items) (j : Json)
    → Holds j (elements js)
    → Holds leaf (node_leaves j)
    → Holds leaf (iter_leaves js)
unfolding node_leaves
iter_leaves-Holds leaf Items.nil j in_list h = absurd in_list
iter_leaves-Holds leaf (Items.item i js) j (inl e) h =
    Holds-append_left leaf (node_leaves i) (iter_leaves js)
      (subst (λ k. Holds leaf (node_leaves k)) e h)
iter_leaves-Holds leaf (Items.item i js) j (inr in_list) h =
    Holds-append_right leaf (node_leaves i) (iter_leaves js) (iter_leaves-Holds leaf js j in_list h)

node_leaves_complete : {leaf : Dict Json} {j : Json} → IsLeafOf leaf j → Holds leaf (node_leaves j)
unfolding node_leaves
node_leaves_complete (IsLeafOf.at_node fs plain e) = rw plain (inl e)
node_leaves_complete {leaf} (IsLeafOf.in_folder fs js j folder found in_list below) =
    rw (folder, children_leaves-found fs js (sym (children-lookup (entries fs)) ∙ found))
      (iter_leaves-Holds leaf js j in_list (node_leaves_complete below))

-- What the search for the list of the children has found.
abbrev IsChild : Dict Json → Fields → Type 0
IsChild leaf fs =
    (js : Items) × (lookup "ChildrenArray" (entries fs) ≡ some (Json.array js)) × IsBelow leaf js

abbrev IsChildList : Dict Json → Json → Type 0
IsChildList leaf j = (js : Items) × (j ≡ Json.array js) × IsBelow leaf js

node_leaves-split :
    (leaf : Dict Json) (fs : Fields) (folder : Bool)
    → is_folder (entries fs) ≡ folder
    → Holds leaf (if folder then children_leaves fs else normalize_handbrake_dict (entries fs) ∷ [])
    → (Holds leaf (children_leaves fs) → IsChild leaf fs)
    → IsLeafOf leaf (Json.object fs)
node_leaves-split leaf fs true e h deeper =
    let (js, found, (j, in_list, below)) = deeper h in
    IsLeafOf.in_folder fs js j e (children-lookup (entries fs) ∙ found) in_list below
node_leaves-split leaf fs false e (inl same) deeper = IsLeafOf.at_node fs e same
node_leaves-split leaf fs false e (inr h) deeper = absurd h

children_leaves-split :
    (leaf : Dict Json) (k : String) (j : Json) (fs : Fields) (named : Bool)
    → ("ChildrenArray" == k) ≡ named
    → Holds leaf (if named then list_leaves j else children_leaves fs)
    → (Holds leaf (list_leaves j) → IsChildList leaf j)
    → (Holds leaf (children_leaves fs) → IsChild leaf fs)
    → IsChild leaf (Fields.field k j fs)
children_leaves-split leaf k j fs true e h this others =
    let (js, is_list, below) = this h in (js, rw e (ap some is_list), below)
children_leaves-split leaf k j fs false e h this others =
    let (js, found, below) = others h in (js, rw e found, below)

mutual
  unfolding node_leaves

  node_leaves_sound : (leaf : Dict Json) (j : Json) → Holds leaf (node_leaves j) → IsLeafOf leaf j
  node_leaves_sound leaf (Json.object fs) h =
      node_leaves-split leaf fs (is_folder (entries fs)) refl h (children_leaves_sound leaf fs)
  node_leaves_sound leaf Json.null h = absurd h
  node_leaves_sound leaf (Json.boolean b) h = absurd h
  node_leaves_sound leaf (Json.int z) h = absurd h
  node_leaves_sound leaf (Json.float z) h = absurd h
  node_leaves_sound leaf (Json.text s) h = absurd h
  node_leaves_sound leaf (Json.array js) h = absurd h

  iter_leaves_sound :
      (leaf : Dict Json) (js : Items) → Holds leaf (iter_leaves js) → IsBelow leaf js
  iter_leaves_sound leaf Items.nil h = absurd h
  iter_leaves_sound leaf (Items.item j js) h =
      elim (Holds-append leaf (node_leaves j) (iter_leaves js) h) [
        | inl here ↦ (j, inl refl, node_leaves_sound leaf j here)
        | inr further ↦
            let (i, in_list, below) = iter_leaves_sound leaf js further in (i, inr in_list, below)
      ]

  children_leaves_sound :
      (leaf : Dict Json) (fs : Fields) → Holds leaf (children_leaves fs) → IsChild leaf fs
  children_leaves_sound leaf Fields.end h = absurd h
  children_leaves_sound leaf (Fields.field k j fs) h =
      children_leaves-split leaf k j fs ("ChildrenArray" == k) refl h (list_leaves_sound leaf j)
        (children_leaves_sound leaf fs)

  list_leaves_sound :
      (leaf : Dict Json) (j : Json) → Holds leaf (list_leaves j) → IsChildList leaf j
  list_leaves_sound leaf (Json.array js) h = (js, refl, iter_leaves_sound leaf js h)
  list_leaves_sound leaf (Json.object fs) h = absurd h
  list_leaves_sound leaf Json.null h = absurd h
  list_leaves_sound leaf (Json.boolean b) h = absurd h
  list_leaves_sound leaf (Json.int z) h = absurd h
  list_leaves_sound leaf (Json.float z) h = absurd h
  list_leaves_sound leaf (Json.text s) h = absurd h

-- The iteration yields just the presets below the nodes: the normalised dicts that are no folders,
-- at any depth of folders.
pub iter_leaves_iff :
    (js : Items) (leaf : Dict Json) → Holds leaf (iter_leaves js) ↔ IsBelow leaf js
iter_leaves_iff js leaf = (
  iter_leaves_sound leaf js,
  λ (j, in_list, below). iter_leaves-Holds leaf js j in_list (node_leaves_complete below),
)
