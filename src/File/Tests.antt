-- ===== src/File/Tests.antt =====
-- The theorems on `AppendOnlyFile` at a file of four bytes.
use libmw_core.Common.{◌+◌, ◌≤◌, ◌<◌, ◌≡◌, ◌⊎◌, refl, arith, [], ◌∷◌, ◌++◌, length, take, drop}
use libmw_core.Exceptions.{ok, err, undefined, file_exception}
use libmw_core.File.AppendOnlyFile.{
  AppendOnlyFile, commit, rollback, append, rewind, get_size, read,
}
use libmw_core.File.AppendOnlyFile.Contents.{IsValid, contents, contents-append, contents-rewind}
use libmw_core.File.AppendOnlyFile.Contents.{read-contents}
use libmw_core.File.AppendOnlyFile.Committing.{contents-commit}

-- Two of the four bytes are rewound, and one is appended.
abbrev rewound : AppendOnlyFile
rewound = record {
  file = 1 ∷ 2 ∷ 3 ∷ 4 ∷ [];
  mapped = 1 ∷ 2 ∷ 3 ∷ 4 ∷ [];
  file_size = 4;
  buffer_index = 2;
  buffer = 9 ∷ [];
}

rewound-IsValid : IsValid rewound
rewound-IsValid = record {
  mapped = refl;
  size = refl;
  within = omega arith;
  addressable = omega arith;
}

contents-append_example :
    (get_size rewound ≡ length (contents rewound))
    × (contents (append (8 ∷ []) rewound) ≡ contents rewound ++ 8 ∷ [])
    × (contents (rollback rewound) ≡ 1 ∷ 2 ∷ 3 ∷ 4 ∷ [])
contents-append_example = contents-append rewound rewound-IsValid (8 ∷ [])

-- Nothing is rewound, and one byte is appended.
abbrev appended : AppendOnlyFile
appended = record rewound { buffer_index = 4 }

appended-IsValid : IsValid appended
appended-IsValid = record {
  mapped = refl;
  size = refl;
  within = omega arith;
  addressable = omega arith;
}

contents-rewind_example :
    (appended.buffer_index ≡ 4
      → (1 ≤ length (contents appended)
          → (s' : AppendOnlyFile) × (rewind 1 appended ≡ ok s')
            × IsValid s'
            × (contents s' ≡ take 1 (contents appended)))
        × (length (contents appended) < 1 → rewind 1 appended ≡ err file_exception))
    × (4 < 4 → rewind 1 appended ≡ undefined)
contents-rewind_example = contents-rewind appended appended-IsValid 1

read-contents_example :
    (2 + 1 ≤ length (contents rewound)
      → (2 + 1 ≤ 2) ⊎ (2 ≤ 2)
      → read 2 1 rewound ≡ ok (take 1 (drop 2 (contents rewound))))
    × (length (contents rewound) < 2 + 1 → read 2 1 rewound ≡ err file_exception)
read-contents_example = read-contents rewound rewound-IsValid 2 1 (omega arith)

contents-commit_example :
    (s' : AppendOnlyFile) × (commit rewound ≡ ok s')
    × IsValid s'
    × ((rewound.buffer_index ≡ 4) ⊎ (rewound.buffer ≡ [])
        → (s'.file ≡ contents rewound) × (contents s' ≡ contents rewound))
    × (2 + 1 ≤ 4 → s'.file ≡ take 3 rewound.file)
contents-commit_example = contents-commit rewound rewound-IsValid
