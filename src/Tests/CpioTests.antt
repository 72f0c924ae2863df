-- ===== src/Tests/CpioTests.antt =====
-- A directory and a file in it, as an archive, and an agent injected into an empty one.
use nova_vm.Common.{ℕ, ◌≡◌, refl, some, List, [], ◌∷◌, ◌++◌, arith}
use nova_vm.Boot.Cpio.{
  TreeEntry, inject_agent, entries_to_cpio, hex_upper, newc_owner, newc_devices, newc_header,
  padded_name_entry,
}
use nova_vm.Boot.Cpio.Newc.{read_newc}
use nova_vm.Boot.Cpio.Archive.{
  IsArchive, Reads, done, entry, trailer, entries_to_cpio-IsArchive, inject_agent_nameless,
}

abbrev init_name : List ℕ
init_name = b'i' ∷ b'n' ∷ b'i' ∷ b't' ∷ []

abbrev hi : List ℕ
hi = b'h' ∷ b'i' ∷ []

abbrev tree : List TreeEntry
tree =
    record { path = b'b' ∷ []; mode = 0o040755; content = [] }
    ∷ record { path = b'b' ∷ b'/' ∷ b'x' ∷ []; mode = 0o100644; content = hi }
    ∷ []

entries_to_cpio-IsArchive_example :
    IsArchive (entries_to_cpio tree 1) (
      entry (b'b' ∷ []) 0o040755 [] 1
      ∷ entry (b'b' ∷ b'/' ∷ b'x' ∷ []) 0o100644 hi 2
      ∷ trailer
      ∷ [])
entries_to_cpio-IsArchive_example = entries_to_cpio-IsArchive tree 1 (omega arith)

empty-IsArchive : IsArchive [] []
empty-IsArchive more = done

inject_agent_nameless_example :
    Reads (0 ∷ []) (inject_agent [] hi ++ []) (entry [] 0o100755 hi 0 ∷ entry [] 0 [] 0 ∷ [])
inject_agent_nameless_example = inject_agent_nameless [] hi [] [] empty-IsArchive (omega arith)

-- The same archive read by evaluation: the file's entry has no name.
agent_read :
    read_newc (padded_name_entry init_name 0o100755 hi ++ (0 ∷ 0 ∷ []))
    ≡ some (entry [] 0o100755 hi 0, [])
unfolding read_newc padded_name_entry newc_header newc_owner newc_devices hex_upper
agent_read = refl
