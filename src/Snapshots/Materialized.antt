-- ===== src/Snapshots/Materialized.antt =====
-- What `_materialize_snapshot_locked` and `create_snapshot` of src/joiny_mnemonic/storage.py return.
use joiny_mnemonic.Prelude.{
  ℕ, zero, suc, ◌≤◌, ◌<◌, String, false, Option, none, some, List, [], ◌∷◌, ◌==◌, string_eq,
  option_eq, option_beq_iff, elem, length, Outcome, ok, raise, >>=-eq-ok, Outcome-cases,
  if◌then◌else◌, ◌≡◌, ◌≢◌, ◌⊎◌, refl, ap, ◌∙◌, arith, Bool-cases, Option-cases, inl, inr, eq_iff,
}
use mathlib.Core.Path.{subst}
use joiny_mnemonic.Json.{Json, Dict, obj, null, bool, nat, num, str, arr, empty}
use joiny_mnemonic.Store.{Externals}
use joiny_mnemonic.Store.Append.{json_text}
use joiny_mnemonic.Snapshots.{
  Delta, Body, Blob, corrupt, not_text, readable, full, legacy, SnapshotRow, Snapshots, Snapshot,
  SnapshotError, out_of_fuel, find_snapshot, given, with_digest, decoded, full_state, legacy_state,
  from_parent, row_state, materialize, get_snapshot,
}

-- How many rows of the table were not visited
abbrev unseen : List String → List SnapshotRow → ℕ
unseen seen [] = 0
unseen seen (r ∷ rs) = let rest = unseen seen rs in if elem r.id seen then rest else suc rest

unseen_more :
    (id : String) (seen : List String) (rs : List SnapshotRow)
    → unseen (id ∷ seen) rs ≤ unseen seen rs
unseen_more id seen [] = omega arith
unseen_more id seen (r ∷ rs) = ground (arith, unseen_more id seen rs)

-- A visit of a row that was not visited leaves fewer.
unseen_less :
    (id : String) (seen : List String) (rs : List SnapshotRow) (row : SnapshotRow)
    → find_snapshot id rs ≡ some row
    → elem id seen ≡ false
    → unseen (id ∷ seen) rs < unseen seen rs
unfolding find_snapshot
unseen_less id seen [] row h new = cc h
unseen_less id seen (r ∷ rs) row h new = elim (Bool-cases (r.id == id)) [
  | inl here ↦
      let same = (eq_iff r.id id).0 here in
      let fresh : elem r.id seen ≡ false = rw same new in
      rw (here, fresh) (omega (arith, unseen_more id seen rs))
  | inr other ↦
      let less = unseen_less id seen rs row (rw other at h) new in rw other (ground (arith, less))
]

unseen_all : (rs : List SnapshotRow) → unseen [] rs ≡ length rs
unseen_all [] = refl
unseen_all (r ∷ rs) = rw (unseen_all rs) refl

module _ (x : Externals) (loads : String → Option Json) where
  with_digest_ends :
      (row : SnapshotRow) (text : String) (state : Dict)
      → with_digest x loads row text state ≢ raise out_of_fuel
  with_digest_ends row text state h = elim (Bool-cases (row.state_sha256 == some (x.sha256 text))) [
    | inl same ↦ cc (rw same at h)
    | inr other ↦ cc (rw other at h)
  ]

  decoded_ends :
      (row : SnapshotRow) (text : String) (v : Option Json)
      → decoded x loads row text v ≢ raise out_of_fuel
  decoded_ends row text none h = cc h
  decoded_ends row text (some (obj state)) h = with_digest_ends row text state h
  decoded_ends row text (some null) h = cc h
  decoded_ends row text (some (bool b)) h = cc h
  decoded_ends row text (some (nat n)) h = cc h
  decoded_ends row text (some (num n)) h = cc h
  decoded_ends row text (some (str s)) h = cc h
  decoded_ends row text (some (arr vs)) h = cc h

  full_state_ends :
      (row : SnapshotRow) (blob : Option Blob) → full_state x loads row blob ≢ raise out_of_fuel
  unfolding full_state
  full_state_ends row none h = cc h
  full_state_ends row (some corrupt) h = cc h
  full_state_ends row (some not_text) h = cc h
  full_state_ends row (some (readable text)) h = decoded_ends row text (loads text) h

  legacy_state_ends :
      (row : SnapshotRow) (delta : Option Delta) (parent : Dict)
      → legacy_state x loads row delta parent ≢ raise out_of_fuel
  unfolding legacy_state
  legacy_state_ends row none parent h = cc h
  legacy_state_ends row (some delta) parent h = with_digest_ends row _ _ h

  from_parent_ends :
      (above : String → Outcome SnapshotError Snapshot) (row : SnapshotRow) (delta : Option Delta)
      (parent : Option String)
      → ((id : String) → above id ≢ raise out_of_fuel)
      → from_parent x loads above row delta parent ≢ raise out_of_fuel
  unfolding from_parent
  from_parent_ends above row delta none ends h = legacy_state_ends row delta empty h
  from_parent_ends above row delta (some parent) ends h = elim (Outcome-cases (above parent)) [
    | inl (s, done) ↦ legacy_state_ends row delta s.state (rw done at h)
    | inr (e, raised) ↦
        let same : e ≡ out_of_fuel = cc (rw raised at h) in ends parent (raised ∙ ap raise same)
  ]

  row_state_ends :
      (above : String → Outcome SnapshotError Snapshot) (row : SnapshotRow) (body : Body)
      → ((id : String) → above id ≢ raise out_of_fuel)
      → row_state x loads above row body ≢ raise out_of_fuel
  unfolding row_state
  row_state_ends above row (full blob) ends h = full_state_ends row blob h
  row_state_ends above row (legacy delta) ends h =
      from_parent_ends above row delta (given row.parent_snapshot_id) ends h

  materialize_ends :
      (fuel : ℕ) (rows : List SnapshotRow) (seen : List String) (id : String)
      → unseen seen rows < fuel
      → materialize x loads fuel rows seen id ≢ raise out_of_fuel
  unfolding materialize
  materialize_ends zero rows seen id enough h = absurd (omega arith)
  materialize_ends (suc fuel) rows seen id enough h = elim (Bool-cases (elem id seen)) [
    | inl again ↦ cc (rw (materialize, again) at h)
    | inr new ↦ elim (Option-cases (find_snapshot id rows)) [
      | inl missing ↦ cc (rw (materialize, new, missing) at h)
      | inr (row, at) ↦
          row_state_ends (materialize x loads fuel rows (id ∷ seen)) row row.body
            (λ parent.
              materialize_ends fuel rows (id ∷ seen) parent
                (omega (arith, unseen_less id seen rows row at new)))
            (rw (materialize, new, at) at h)
    ]
  ]

  -- The recursion over the parents of a snapshot ends in every table, be there a cycle or not: it visits no
  -- more rows than there are.
  pub get_snapshot_ends :
      (t : Snapshots) (id : String) → get_snapshot x loads t id ≢ raise out_of_fuel
  unfolding get_snapshot
  get_snapshot_ends t id =
      materialize_ends (suc (length t.rows)) t.rows [] id (omega (arith, unseen_all t.rows))

  -- A state with the digest that its row records
  pub record IsVerified (rows : List SnapshotRow) (id : String) (s : Snapshot) : Type 0 where
    pub at : find_snapshot id rows ≡ some s.row
    pub text : String
    pub digest : s.row.state_sha256 ≡ some (x.sha256 text)
    pub is_text : (loads text ≡ some (obj s.state)) ⊎ (text ≡ json_text x (obj s.state))

  -- The digest of a state, without its place in the table
  record HasDigest (row : SnapshotRow) (s : Snapshot) : Type 0 where
    same : row ≡ s.row
    text : String
    digest : row.state_sha256 ≡ some (x.sha256 text)
    is_text : (loads text ≡ some (obj s.state)) ⊎ (text ≡ json_text x (obj s.state))

  with_digest-HasDigest :
      (row : SnapshotRow) (text : String) (state : Dict) (s : Snapshot)
      → (loads text ≡ some (obj state)) ⊎ (text ≡ json_text x (obj state))
      → with_digest x loads row text state ≡ ok s
      → HasDigest row s
  with_digest-HasDigest row text state s from h =
      elim (Bool-cases (row.state_sha256 == some (x.sha256 text))) [
        | inr other ↦ cc (rw other at h)
        | inl equal ↦
            let made : record { row = row; state = state } ≡ s = cc (rw equal at h) in
            subst (HasDigest row) made (record {
              same = refl;
              text = text;
              digest = (option_beq_iff row.state_sha256 (some (x.sha256 text))).0 equal;
              is_text = from;
            })
      ]

  decoded-HasDigest :
      (row : SnapshotRow) (text : String) (v : Option Json) (s : Snapshot)
      → loads text ≡ v
      → decoded x loads row text v ≡ ok s
      → HasDigest row s
  decoded-HasDigest row text none s e h = cc h
  decoded-HasDigest row text (some (obj state)) s e h =
      with_digest-HasDigest row text state s (inl e) h
  decoded-HasDigest row text (some null) s e h = cc h
  decoded-HasDigest row text (some (bool b)) s e h = cc h
  decoded-HasDigest row text (some (nat n)) s e h = cc h
  decoded-HasDigest row text (some (num n)) s e h = cc h
  decoded-HasDigest row text (some (str v)) s e h = cc h
  decoded-HasDigest row text (some (arr vs)) s e h = cc h

  legacy-HasDigest :
      (row : SnapshotRow) (delta : Option Delta) (parent : Dict) (s : Snapshot)
      → legacy_state x loads row delta parent ≡ ok s
      → HasDigest row s
  unfolding legacy_state
  legacy-HasDigest row none parent s h = cc h
  legacy-HasDigest row (some delta) parent s h = with_digest-HasDigest row _ _ s (inr refl) h

  row-HasDigest :
      (above : String → Outcome SnapshotError Snapshot) (row : SnapshotRow) (body : Body)
      (s : Snapshot)
      → row_state x loads above row body ≡ ok s
      → HasDigest row s
  unfolding row_state full_state from_parent
  row-HasDigest above row (full none) s h = cc h
  row-HasDigest above row (full (some corrupt)) s h = cc h
  row-HasDigest above row (full (some not_text)) s h = cc h
  row-HasDigest above row (full (some (readable text))) s h =
      decoded-HasDigest row text (loads text) s refl h
  row-HasDigest above row (legacy delta) s h = elim (Option-cases (given row.parent_snapshot_id)) [
    | inl root ↦ legacy-HasDigest row delta empty s (rw (row_state, root, from_parent) at h)
    | inr (parent, up) ↦
        let (p, _, rest) =
          >>=-eq-ok (above parent) (λ p. legacy_state x loads row delta p.state)
            (rw (row_state, up, from_parent) at h) in
        legacy-HasDigest row delta p.state s rest
  ]

  -- A state is returned only where its text has the digest that the row of the snapshot records.
  pub get_snapshot-IsVerified :
      (t : Snapshots) (id : String) (s : Snapshot)
      → get_snapshot x loads t id ≡ ok s
      → IsVerified t.rows id s
  unfolding get_snapshot materialize
  get_snapshot-IsVerified t id s h = elim (Option-cases (find_snapshot id t.rows)) [
    | inl missing ↦ cc (rw (get_snapshot, materialize, missing) at h)
    | inr (row, at) ↦
        let d =
          row-HasDigest (materialize x loads (length t.rows) t.rows (id ∷ [])) row row.body s
            (rw (get_snapshot, materialize, at) at h) in
        record {
          at = at ∙ ap some d.same;
          text = d.text;
          digest = subst (λ v. v.state_sha256 ≡ some (x.sha256 d.text)) d.same d.digest;
          is_text = d.is_text;
        }
  ]
