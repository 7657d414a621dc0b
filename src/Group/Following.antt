-- ===== src/Group/Following.antt =====
-- What a slave has come to when it has read all that the master of src/user_fs.cc has sent it.
use group_share_filesystem.Base.{
  ◌≡◌, ap, ◌∙◌, Bytes, List, [], ◌∷◌, ◌++◌, ok, ok-injective, bind-eq-ok, ◌>>=◌,
}
use group_share_filesystem.Archive.{Archive}
use group_share_filesystem.TcpMessager.Receiving.{received}
use group_share_filesystem.TcpManager.{read_from_master}
use group_share_filesystem.UserFs.{UserFs}
use group_share_filesystem.Group.{read_all}

module _ (archive : Archive) where
  -- All messages can be read, and what is reached then satisfies the predicate.
  abbrev pub Settles : (UserFs → Type 0) → List Bytes → UserFs → Type 0
  Settles P messages fs = (after : UserFs) × (read_all archive messages fs ≡ ok after) × P after

  pub Settles-map :
      (P Q : UserFs → Type 0) (messages : List Bytes) (fs : UserFs)
      → ((after : UserFs) → P after → Q after)
      → Settles P messages fs
      → Settles Q messages fs
  Settles-map P Q messages fs f (after, e, h) = (after, e, f after h)

  read_all-snoc :
      (messages : List Bytes) (message : Bytes) (fs : UserFs) {after : UserFs}
      → read_all archive messages fs ≡ ok after
      → read_all archive (messages ++ message ∷ []) fs
        ≡ (read_from_master archive (received message) after >>= λ x. ok x)
  unfolding read_all
  read_all-snoc [] message fs e =
      ap (λ x. read_from_master archive (received message) x >>= λ y. ok y) (ok-injective e)
  read_all-snoc (first ∷ messages) message fs e =
      let (next, read, run) = bind-eq-ok (read_from_master archive (received first) fs) _ e in
      rw read (read_all-snoc messages message next run)

  -- One more message.
  pub Settles-snoc :
      (P Q : UserFs → Type 0) (messages : List Bytes) (message : Bytes) (fs : UserFs)
      → ((after : UserFs)
          → P after
          → (last : UserFs) × (read_from_master archive (received message) after ≡ ok last)
            × Q last)
      → Settles P messages fs
      → Settles Q (messages ++ message ∷ []) fs
  Settles-snoc P Q messages message fs more (after, e, h) =
      let (last, read, q) = more after h in
      (last, read_all-snoc messages message fs e ∙ ap (λ o. o >>= λ x. ok x) read, q)

  -- One message fewer.
  pub Settles-tail :
      (P : UserFs → Type 0) (message : Bytes) (messages : List Bytes) (fs : UserFs) {next : UserFs}
      → read_from_master archive (received message) fs ≡ ok next
      → Settles P (message ∷ messages) fs
      → Settles P messages next
  unfolding read_all
  Settles-tail P message messages fs e (after, run, h) = (after, rw e at run, h)
