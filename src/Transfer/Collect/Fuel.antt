-- ===== src/Transfer/Collect/Fuel.antt =====
-- Collecting ends: no relative path that resolves is longer than the system allows, and each level of
-- a folder makes the path longer.
use agent_send.Base.{
  ℕ, zero, suc, ◌+◌, ◌<◌, ◌≤◌, Text, List, [], ◌∷◌, none, some, false, ◌≡◌, ◌≢◌, refl, arith,
  length, length-append, All, inl, inr,
}
use agent_send.Base.Result.{Result, ok, err, map_err, ◌>>=◌, Result-cases}
use agent_send.Core.Os.{FileSystem, Reading, FileKind, regular, folder, special, Sha256}
use agent_send.Core.Paths.{join, has_root}
use agent_send.Core.Policy.{PathPolicy, read, resolve}
use agent_send.Core.Policy.Confinement.{resolve-IsReadable}
use agent_send.Core.Request.{TransferRequest}
use agent_send.Transfer.Types.{TransferEngine, FileItem, TransferError, io}
use agent_send.Transfer.Engine
use agent_send.Transfer.Engine.{validate_submission}
use agent_send.Transfer.Outbound.{measure}
use agent_send.Transfer.Collect.{
  Fueled, collect_error, resolve_source, collect_entries, collect_kind, collect_items,
  collect_paths, prepare_outbound, sort_names, insert_name, hash_items,
}

-- The result is not for want of fuel.
abbrev pub Ends : {A : Type 0} → Fueled A → Type 0
Ends r = r ≢ err none

>>=-Ends :
    {A B : Type 0} (r : Fueled A) (f : A → Fueled B)
    → Ends r
    → ((a : A) → r ≡ ok a → Ends (f a))
    → Ends (r >>= f)
>>=-Ends r f h k = elim (Result-cases r) [
  | inl (a, e) ↦ λ out. k a e (ground (arith, e, out))
  | inr (x, e) ↦ λ out. ground (arith, e, out, h)
]

ok-Ends : {A : Type 0} (a : A) → Ends (ok a)
ok-Ends a h = ground arith

err-Ends : {A : Type 0} (e : TransferError) → Ends {A = A} (err (some e))
err-Ends e h = ground arith

collect_error-Ends : {A : Type 0} (r : Result TransferError A) → Ends (collect_error r)
collect_error-Ends r h = ground arith

join-length :
    (base name : Text) → has_root name ≡ false → name ≢ [] → length base < length (join base name)
unfolding join
join-length base [] h ne = absurd (ne refl)
join-length base (c ∷ cs) h ne =
    ground (arith, length-append base (c ∷ cs), length-append base (b'/' ∷ c ∷ cs))

abbrev AreNames : List Text → Type 0
AreNames = All (λ name. name ≢ [])

insert_name-AreNames :
    (name : Text) (rest : List Text) → name ≢ [] → AreNames rest → AreNames (insert_name name rest)
unfolding insert_name
insert_name-AreNames name [] h hs = (h, tt)
insert_name-AreNames name (first ∷ rest) h hs =
    let later = insert_name-AreNames name rest h hs.1 in ground (arith, later, h, hs)

sort_names-AreNames : (names : List Text) → AreNames names → AreNames (sort_names names)
unfolding sort_names
sort_names-AreNames [] hs = tt
sort_names-AreNames (name ∷ rest) hs =
    insert_name-AreNames name (sort_names rest) hs.0 (sort_names-AreNames rest hs.1)

join-root : (base name : Text) → has_root (join base name) ≡ false → has_root name ≡ false
unfolding join
join-root base name h = ground arith

module _ (fs : FileSystem) (disk : Reading fs) (d : fs.Disk) where
  -- The system's limit on the length of a path, and that the entries of a folder have names.
  pub record IsLimited (limit : ℕ) : Type 0 where
    pub resolves :
        (source : PathPolicy) (relative : Text) {path : Text}
        → resolve fs d source relative read ≡ ok path
        → length relative ≤ limit
    pub named : (path : Text) {names : List Text} → disk.read_dir d path ≡ ok names → AreNames names

  module _ (source : PathPolicy) (limit : ℕ) (limited : IsLimited limit) where
    resolved-resolve :
        (relative : Text) {path : Text}
        → resolve_source fs disk d source relative ≡ ok path
        → resolve fs d source relative read ≡ ok path
    unfolding resolve_source
    resolved-resolve relative h = ground arith

    resolve-Ends : (relative : Text) → Ends (resolve_source fs disk d source relative)
    unfolding resolve_source
    resolve-Ends relative h = ground arith

    child-longer :
        (relative name : Text) {path : Text}
        → name ≢ []
        → resolve_source fs disk d source (join relative name) ≡ ok path
        → (length relative < length (join relative name)) × (length (join relative name) ≤ limit)
    child-longer relative name ne h =
        let found = resolved-resolve (join relative name) h in
        let readable = resolve-IsReadable fs d source (join relative name) found in
        (
          join-length relative name (join-root relative name readable.passed.confined.relative) ne,
          limited.resolves source (join relative name) found,
        )

    module _ (collect : Text → Text → List FileItem → Fueled (List FileItem)) where
      entries-Ends :
          (relative : Text) (names : List Text) (out : List FileItem)
          → AreNames names
          → ((path child : Text) (more : List FileItem)
              → length relative < length child
              → length child ≤ limit
              → Ends (collect path child more))
          → Ends (collect_entries fs disk d source collect relative names out)
      unfolding collect_entries
      entries-Ends relative [] out hs f = ok-Ends out
      entries-Ends relative (name ∷ rest) out hs f =
          >>=-Ends _ _ (resolve-Ends (join relative name)) (λ path e.
            let (longer, short) = child-longer relative name hs.0 e in
            >>=-Ends _ _ (f path (join relative name) out longer short)
              (λ more e'. entries-Ends relative rest more hs.1 f))

      kind-Ends :
          (kind : FileKind) (size : ℕ) (path relative : Text) (out : List FileItem)
          → ((path child : Text) (more : List FileItem)
              → length relative < length child
              → length child ≤ limit
              → Ends (collect path child more))
          → Ends (collect_kind fs disk d source collect kind size path relative out)
      unfolding collect_kind
      kind-Ends regular size path relative out f = ok-Ends _
      kind-Ends special size path relative out f = err-Ends _
      kind-Ends folder size path relative out f = >>=-Ends _ _ (resolve-Ends relative) (λ _ e.
          >>=-Ends _ _ (collect_error-Ends _) (λ names e'.
            >>=-Ends _ _
              (entries-Ends relative (sort_names names) out
                (sort_names-AreNames names (limited.named path (listed path e'))) f)
              (λ inside e''. ok-Ends _)))
        where
          listed :
              (path : Text) {names : List Text}
              → collect_error (map_err io (disk.read_dir d path)) ≡ ok names
              → disk.read_dir d path ≡ ok names
          listed path h = ground arith

    items-Ends :
        (n : ℕ) (path relative : Text) (out : List FileItem)
        → 0 < n
        → limit < length relative + n
        → Ends (collect_items fs disk d source n path relative out)
    unfolding collect_items
    items-Ends zero path relative out pos h = absurd (omega (arith, pos))
    items-Ends (suc n) path relative out pos h =
        >>=-Ends (collect_error (map_err io (disk.metadata d path))) _ (collect_error-Ends _)
          (λ found e.
            kind-Ends (collect_items fs disk d source n) found.0 found.1 path relative out
              (λ inner child more longer short.
                items-Ends n inner child more (omega (arith, h, longer, short))
                  (omega (arith, h, longer))))

    paths-Ends :
        (n : ℕ) (names : List Text) (out : List FileItem)
        → limit < n
        → Ends (collect_paths fs disk d source n names out)
    unfolding collect_paths
    paths-Ends n [] out h = ok-Ends out
    paths-Ends n (name ∷ rest) out h = >>=-Ends _ _ (resolve-Ends name) (λ path e.
        >>=-Ends _ _ (items-Ends n path name out (omega arith) (omega arith))
          (λ more e'. paths-Ends n rest more h))

  -- If no relative path that resolves is longer than a limit and no entry of a folder has an empty
  -- name, fuel above the limit is enough to prepare any request: the result is never that it ran out.
  pub prepare_outbound-Ends :
      (sha : Sha256) (n limit : ℕ) (e : TransferEngine) (r : TransferRequest)
      → IsLimited limit
      → limit < n
      → Ends (prepare_outbound fs disk d sha n e r)
  unfolding prepare_outbound
  prepare_outbound-Ends sha n limit e r limited h =
      >>=-Ends (collect_error (validate_submission fs d e r)) _ (collect_error-Ends _) (λ _ _.
        >>=-Ends (collect_error (Engine.folder e r.source_folder_id)) _ (collect_error-Ends _)
          (λ source _.
            >>=-Ends _ _ (paths-Ends source limit limited n r.source_paths [] h) (λ items _.
              >>=-Ends (collect_error (measure fs d items)) _ (collect_error-Ends _) (λ total _.
                >>=-Ends (collect_error (hash_items fs disk d sha items)) _ (collect_error-Ends _)
                  (λ hash _. ok-Ends _)))))
