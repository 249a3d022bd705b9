-- ===== src/Core/Signature.antt =====
-- crates/bethkit-core/src/types.rs: the four-byte signatures that the format reserves.
use bethkit.Prelude.{ℕ, List, [], ◌∷◌, ◌≡◌, length, All}
use bethkit.Io.Bytes.{IsByte}

abbrev pub Signature : Type 0
Signature = List ℕ

-- `[u8; 4]`
pub record IsSignature (s : Signature) : Type 0 where
  pub four : length s ≡ 4
  pub octets : All IsByte s

abbrev pub tes4 : Signature
tes4 = b'T' ∷ b'E' ∷ b'S' ∷ b'4' ∷ []

abbrev pub tes3 : Signature
tes3 = b'T' ∷ b'E' ∷ b'S' ∷ b'3' ∷ []

abbrev pub grup : Signature
grup = b'G' ∷ b'R' ∷ b'U' ∷ b'P' ∷ []

abbrev pub edid : Signature
edid = b'E' ∷ b'D' ∷ b'I' ∷ b'D' ∷ []

abbrev pub mast : Signature
mast = b'M' ∷ b'A' ∷ b'S' ∷ b'T' ∷ []

abbrev pub hedr : Signature
hedr = b'H' ∷ b'E' ∷ b'D' ∷ b'R' ∷ []

abbrev pub xxxx : Signature
xxxx = b'X' ∷ b'X' ∷ b'X' ∷ b'X' ∷ []

abbrev pub snam : Signature
snam = b'S' ∷ b'N' ∷ b'A' ∷ b'M' ∷ []

abbrev pub data_sig : Signature
data_sig = b'D' ∷ b'A' ∷ b'T' ∷ b'A' ∷ []
