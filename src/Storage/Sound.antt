-- ===== src/Storage/Sound.antt =====
-- The operations of the storage from a sound state: whatever they return, they leave it sound.
use file_storage_server.Base.{
  Bool, ◌≡◌, ap, ◌∙◌, Option, none, some, arith, if◌then◌else◌, inl, inr, Bool-cases, Option-cases,
  leb, length,
}
use file_storage_server.Outcome.{Outcome, ok, fault, and_then, Cmd, ◌>>=◌, Ends, then-Ends, if-Ends}
use file_storage_server.Utilities.{CString}
use file_storage_server.HashMap.{hash_map_insert}
use file_storage_server.Protocol.{max_path}
use file_storage_server.Storage.{
  storage_create_file, storage_get_file, storage_update_file, storage_add_file,
}
use file_storage_server.Storage.State.{
  Ptr, File, Storage, Server, load, alloc, with_storage, send, Reply,
}
use file_storage_server.Storage.Table.{
  lookup, IsServer, lookup-total, allocated-IsServer, update_file-lookup,
}

-- If the call ends, the state is sound.
abbrev pub Sound : {A : Type 0} → Outcome (A × Server) → Type 0
Sound = Ends (λ r. IsServer r.1)

-- A command that keeps the state sound.
abbrev pub KeepsServer : {A : Type 0} → Cmd Server A → Type 0
KeepsServer m = (s : Server) → IsServer s → Sound (m s)

pub then-Sound :
    {A B : Type 0} (o : Outcome (A × Server)) (k : A × Server → Outcome (B × Server))
    → Sound o
    → ((r : A × Server) → IsServer r.1 → Sound (k r))
    → Sound (and_then o k)
then-Sound = then-Ends (λ r. IsServer r.1) (λ r. IsServer r.1)

pub if-Sound :
    {A : Type 0} (b : Bool) (o o' : Outcome (A × Server))
    → Sound o
    → Sound o'
    → Sound (if b then o else o')
if-Sound = if-Ends (λ r. IsServer r.1)

pub bind-KeepsServer :
    {A B : Type 0} (m : Cmd Server A) (k : A → Cmd Server B)
    → KeepsServer m
    → ((a : A) → KeepsServer (k a))
    → KeepsServer (m >>= k)
bind-KeepsServer m k p q s w = then-Sound (m s) (λ r. k r.0 r.1) (p s w) (λ r w'. q r.0 r.1 w')

-- A change of the storage that leaves the table alone.
pub with_storage-KeepsServer :
    (f : Storage → Storage)
    → ((st : Storage) → (f st).files ≡ st.files)
    → KeepsServer (with_storage f)
with_storage-KeepsServer f same s w = record {
  sized = rw (same s.storage) w.sized;
  placed = rw (same s.storage) w.placed;
  named = λ j p e. w.named j p (rw (same s.storage) at e);
  fresh = w.fresh;
}

pub load-Sound :
    {A : Type 0} (p : Ptr) (k : File → Cmd Server A) (s : Server)
    → ((f : File) → s.heap p ≡ some f → Sound (k f s))
    → Sound ((load p >>= k) s)
unfolding load
load-Sound p k s h = elim (Option-cases (s.heap p)) [
  | inl gone ↦ rw (gone, load) tt
  | inr (f, at) ↦ rw (at, load) (h f at)
]

pub get_file-Sound :
    {A : Type 0} (name : CString) (k : Option Ptr → Cmd Server A) (s : Server)
    → IsServer s
    → Sound (k none s)
    → ((p : Ptr) → lookup s name ≡ ok (some p) → Sound (k (some p) s))
    → Sound ((storage_get_file name >>= k) s)
unfolding storage_get_file
get_file-Sound name k s w missing found =
    let (r, e) = lookup-total w name in
    elim (Option-cases r) [
      | inl n ↦ rw (e, n) missing
      | inr (p, n) ↦ rw (e, n) (found p (e ∙ ap ok n))
    ]

pub send-KeepsServer : (r : Reply) → KeepsServer (send r)
unfolding send
send-KeepsServer r s w = record {
  sized = w.sized;
  placed = w.placed;
  named = w.named;
  fresh = w.fresh;
}

pub storage_create_file-KeepsServer : (name : CString) → KeepsServer (storage_create_file name)
unfolding storage_create_file alloc
storage_create_file-KeepsServer name s w = elim (Bool-cases (leb max_path (length name))) [
  | inl long ↦ rw long tt
  | inr fits ↦ rw fits (allocated-IsServer w _)
]

pub storage_update_file-KeepsServer : (p : Ptr) → KeepsServer (storage_update_file p)
unfolding storage_update_file hash_map_insert
storage_update_file-KeepsServer p s w = elim (Option-cases (s.heap p)) [
  | inl gone ↦ let e : storage_update_file p s ≡ fault = ground (arith, gone) in rw e tt
  | inr (f, at) ↦ let (m, run, _, w') = update_file-lookup w p f at in rw run w'
]

pub storage_add_file-KeepsServer : (p : Ptr) → KeepsServer (storage_add_file p)
unfolding storage_add_file
storage_add_file-KeepsServer p s w =
    then-Sound (storage_update_file p s) _ (storage_update_file-KeepsServer p s w)
      λ q w'. record { sized = w'.sized; placed = w'.placed; named = w'.named; fresh = w'.fresh }
