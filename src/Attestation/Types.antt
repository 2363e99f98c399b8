-- ===== src/Attestation/Types.antt =====
-- The records of src/verifier/attestation/types.rs and the decoding of their bit fields.
use Prim.Native.String.{String}
use tinfoil_rs.Prelude.{
  ℕ, ◌+◌, ◌/◌, ◌%◌, ◌^◌, Bool, true, false, ◌&&◌, List, Option, none, some, leb, ◌==◌,
}
use tinfoil_rs.Word.{bit}

pub data PredicateType : Type 0 where
  sev_guest_v2 tdx_guest_v2 snp_tdx_multi_platform_v1 unknown : PredicateType

unfoldable pub as_url : PredicateType → String
as_url sev_guest_v2 = "https://tinfoil.sh/predicate/sev-snp-guest/v2"
as_url tdx_guest_v2 = "https://tinfoil.sh/predicate/tdx-guest/v2"
as_url snp_tdx_multi_platform_v1 = "https://tinfoil.sh/predicate/snp-tdx-multiplatform/v1"
as_url unknown = "unknown"

pub record AttestationDocument : Type 0 where
  pub format : PredicateType
  pub body : String

-- `type_` and `registers`.
pub record Measurement : Type 0 where
  pub type_ : PredicateType
  pub registers : List String

pub record Verification : Type 0 where
  pub measurement : Measurement
  pub tls_public_key_fp : String
  pub hpke_public_key : Option String

pub record SnpPolicy : Type 0 where
  pub abi_minor : ℕ
  pub abi_major : ℕ
  pub smt : Bool
  pub migrate_ma : Bool
  pub debug : Bool
  pub single_socket : Bool
  pub cxl_allowed : Bool
  pub mem_aes256_xts : Bool
  pub rapl_dis : Bool
  pub ciphertext_hiding_dram : Bool
  pub page_swap_disabled : Bool

-- `(value & (1 << i)) != 0`
abbrev pub flag : ℕ → ℕ → Bool
flag value i = bit value i == 1

-- `(value >> i) & 0xFF`
abbrev pub byte_at : ℕ → ℕ → ℕ
byte_at value i = value / 2 ^ i % 256

unfoldable pub policy_from_u64 : ℕ → SnpPolicy
policy_from_u64 value = record {
  abi_minor = byte_at value 0;
  abi_major = byte_at value 8;
  smt = flag value 16;
  migrate_ma = flag value 18;
  debug = flag value 19;
  single_socket = flag value 20;
  cxl_allowed = flag value 21;
  mem_aes256_xts = flag value 22;
  rapl_dis = flag value 23;
  ciphertext_hiding_dram = flag value 24;
  page_swap_disabled = flag value 25;
}

pub record SnpPlatformInfo : Type 0 where
  pub smt_enabled : Bool
  pub tsme_enabled : Bool
  pub ecc_enabled : Bool
  pub rapl_disabled : Bool
  pub ciphertext_hiding_dram_enabled : Bool
  pub alias_check_complete : Bool
  pub tio_enabled : Bool

unfoldable pub platform_info_from_u64 : ℕ → SnpPlatformInfo
platform_info_from_u64 value = record {
  smt_enabled = flag value 0;
  tsme_enabled = flag value 1;
  ecc_enabled = flag value 2;
  rapl_disabled = flag value 3;
  ciphertext_hiding_dram_enabled = flag value 4;
  alias_check_complete = flag value 5;
  tio_enabled = flag value 7;
}

pub record TcbParts : Type 0 where
  pub bl_spl : ℕ
  pub tee_spl : ℕ
  pub snp_spl : ℕ
  pub ucode_spl : ℕ

unfoldable pub tcb_from_u64 : ℕ → TcbParts
tcb_from_u64 tcb = record {
  bl_spl = byte_at tcb 0;
  tee_spl = byte_at tcb 8;
  snp_spl = byte_at tcb 48;
  ucode_spl = byte_at tcb 56;
}

unfoldable pub meets_minimum : TcbParts → TcbParts → Bool
meets_minimum t min =
    leb min.bl_spl t.bl_spl
    && leb min.tee_spl t.tee_spl
    && leb min.snp_spl t.snp_spl
    && leb min.ucode_spl t.ucode_spl

pub record ValidationOptions : Type 0 where
  pub guest_policy : Option SnpPolicy
  pub minimum_guest_svn : Option ℕ
  pub minimum_build : Option ℕ
  pub minimum_version : Option ℕ
  pub minimum_tcb : Option TcbParts
  pub minimum_launch_tcb : Option TcbParts
  pub permit_provisional_firmware : Bool
  pub platform_info : Option SnpPlatformInfo
  pub vmpl : Option ℕ
  pub report_data : Option (List ℕ)
  pub host_data : Option (List ℕ)
  pub image_id : Option (List ℕ)
  pub family_id : Option (List ℕ)
  pub report_id : Option (List ℕ)
  pub report_id_ma : Option (List ℕ)
  pub measurement : Option (List ℕ)
  pub chip_id : Option (List ℕ)

abbrev pub default_policy : SnpPolicy
default_policy = record {
  abi_minor = 0;
  abi_major = 0;
  smt = true;
  migrate_ma = false;
  debug = false;
  single_socket = false;
  cxl_allowed = false;
  mem_aes256_xts = false;
  rapl_dis = false;
  ciphertext_hiding_dram = false;
  page_swap_disabled = false;
}

abbrev pub default_minimum_tcb : TcbParts
default_minimum_tcb = record { bl_spl = 0x7; tee_spl = 0; snp_spl = 0xe; ucode_spl = 0x48 }

abbrev pub default_platform_info : SnpPlatformInfo
default_platform_info = record {
  smt_enabled = true;
  tsme_enabled = true;
  ecc_enabled = false;
  rapl_disabled = false;
  ciphertext_hiding_dram_enabled = false;
  alias_check_complete = false;
  tio_enabled = false;
}

-- `ValidationOptions::default()`
abbrev pub default_options : ValidationOptions
default_options = record {
  guest_policy = some default_policy;
  minimum_guest_svn = some 0;
  minimum_build = some 21;
  minimum_version = some (256 + 55);
  minimum_tcb = some default_minimum_tcb;
  minimum_launch_tcb = some default_minimum_tcb;
  permit_provisional_firmware = false;
  platform_info = some default_platform_info;
  vmpl = some 0;
  report_data = none;
  host_data = none;
  image_id = none;
  family_id = none;
  report_id = none;
  report_id_ma = none;
  measurement = none;
  chip_id = none;
}
