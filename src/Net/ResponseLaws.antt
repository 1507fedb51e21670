-- ===== src/Net/ResponseLaws.antt =====
-- Responses are read back from their bytes (crates/godcoin/src/net/rpc.rs).
use godcoin.Base.{ℕ, Option, ◌^◌, ◌<◌, ◌≡◌, refl, ap, ◌∙◌, [], ◌∷◌, ◌++◌, Bytes, some, append_assoc}
use godcoin.Base.Int.{InI64}
use godcoin.Crypto.{SigPair}
use godcoin.Serializer.Write.{be_bytes, push_u8}
use godcoin.Serializer.Read.{
  Read, pure, ◌>>=◌, take_u8, unexpected_eof, invalid_data, take_u64, take_sig_pair, take_asset,
}
use godcoin.Serializer.Decodes.{Decodes, Decodes-bind, Decodes-map, take_u64-Decodes}
use godcoin.Serializer.Varint.{var_bytes}
use godcoin.Serializer.Laws.{
  pushes, sig_pair_bytes, IsSigPair, take_sig_pair-Decodes, take_asset-Decodes,
}
use godcoin.Account.Laws.{
  IsWireAccount, account_bytes, account_serialize_lem, account_deserialize-Decodes,
}
use godcoin.Tx.Types.{OwnerTx, owner_tx}
use godcoin.Tx.Format.{tx_deserialize}
use godcoin.Tx.Take.{Takes}
use godcoin.Tx.Laws.{IsWireTx, IsWireBody, tx_bytes, tx_serialize_lem}
use godcoin.Tx.RoundTrip.{tx-Takes}
use godcoin.Chain.Types.{Block, BlockHeader, AccountInfo}
use godcoin.Chain.Block.{header_deserialize, block_serialize, block_deserialize}
use godcoin.Chain.BlockFormat.{
  IsWireHeader, IsWireBlock, header_bytes, block_bytes, header_serialize_lem, block_serialize_lem,
  header-Takes, block-Takes,
}
use godcoin.Net.Types.{Properties, FilteredBlock, Response}
use godcoin.Net.Errors.{or_io}
use godcoin.Net.ErrorLaws.{Decodes-or_io, Decodes-tag, Decodes-pure}
use godcoin.Net.Rpc.{
  properties_serialize, filtered_serialize, info_serialize, response_serialize, expect_owner,
  take_properties, take_filtered_header, take_block, filtered_of, take_filtered, take_info,
  response_of, response_deserialize,
}

-- The sizes that the format holds.
pub record IsWireProperties (props : Properties) (tx : OwnerTx) : Type 0 where
  pub height_u64 : props.height < 2 ^ 64
  pub owned : props.owner ≡ owner_tx tx
  pub owner_wire : IsWireTx tx.base
  pub owner_body : IsWireBody (owner_tx tx)
  pub fee_i64 : InI64 props.network_fee.amount
  pub supply_i64 : InI64 props.token_supply.amount

pub record IsWireInfo (info : AccountInfo) : Type 0 where
  pub account_wire : IsWireAccount info.account
  pub net_fee_i64 : InI64 info.net_fee.amount
  pub account_fee_i64 : InI64 info.account_fee.amount

-- The owner is an owner transaction, and a block is signed.
abbrev pub IsWireFiltered : FilteredBlock → Type 0
IsWireFiltered (FilteredBlock.header header signer) = IsWireHeader header × IsSigPair signer
IsWireFiltered (FilteredBlock.block block) = (signer : SigPair) × IsWireBlock block signer

abbrev pub IsWireResponse : Response → Type 0
IsWireResponse (Response.get_properties props) = (tx : OwnerTx) × IsWireProperties props tx
IsWireResponse (Response.get_block filtered) = IsWireFiltered filtered
IsWireResponse (Response.get_full_block block) = (signer : SigPair) × IsWireBlock block signer
IsWireResponse (Response.get_account_info info) = IsWireInfo info
IsWireResponse _ = Unit {0}

-- What is written is read back: the writer appends bytes, and the reader takes them.
pub record IsCoded {A : Type 0} (write : Bytes → Option Bytes) (read : Read A) (a : A)
    : Type 0 where
  pub bytes : Bytes
  pub written : (buf : Bytes) → write buf ≡ some (buf ++ bytes)
  pub reads : Decodes read bytes a

properties-IsCoded :
    (props : Properties) (tx : OwnerTx)
    → IsWireProperties props tx
    → IsCoded (λ buf. some (properties_serialize props buf)) take_properties props
unfolding properties_serialize take_properties expect_owner
properties-IsCoded props tx w = record {
  bytes =
      be_bytes 8 props.height
      ++ (tx_bytes props.owner
          ++ (var_bytes props.network_fee.amount ++ var_bytes props.token_supply.amount));
  written = λ buf. ap some (simp (tx_serialize_lem, pushes));
  reads =
      Decodes-bind take_u64 _ (be_bytes 8 props.height) _ props.height props
        (take_u64-Decodes props.height w.height_u64)
        (Decodes-bind (or_io tx_deserialize invalid_data) _ (tx_bytes props.owner) _ props.owner
          props (Decodes-or_io tx_deserialize invalid_data _ _ owner_taken)
          (Decodes-bind (expect_owner props.owner) _ [] _ props.owner props owner_expected (
            Decodes-bind take_asset _ (var_bytes props.network_fee.amount) _ props.network_fee props
              (take_asset-Decodes props.network_fee w.fee_i64)
              (Decodes-map take_asset _ (var_bytes props.token_supply.amount) props.token_supply
                props (take_asset-Decodes props.token_supply w.supply_i64) refl))));
}
  where
    owner_taken : Takes tx_deserialize (tx_bytes props.owner) props.owner
    owner_taken = rw w.owned (tx-Takes (owner_tx tx) w.owner_wire w.owner_body)

    owner_expected : Decodes (expect_owner props.owner) [] props.owner
    owner_expected = rw w.owned (Decodes-pure (owner_tx tx))

block-IsCoded :
    (block : Block) (signer : SigPair)
    → IsWireBlock block signer
    → IsCoded (block_serialize block) take_block block
unfolding take_block
block-IsCoded block signer w = record {
  bytes = block_bytes block signer;
  written = λ buf. block_serialize_lem block signer buf w.signed;
  reads = Decodes-or_io block_deserialize unexpected_eof _ block (block-Takes block signer w);
}

-- A tag before, and what the value is put into after.
pub IsCoded-tag :
    {A B : Type 0} (write : Bytes → Option Bytes) (read : Read A) (a : A) (tag : ℕ) (f : A → B)
    (of : ℕ → Read B)
    → of tag ≡ (read >>= λ a. pure (f a))
    → IsCoded write read a
    → IsCoded (λ buf. write (push_u8 buf tag)) (take_u8 >>= of) (f a)
unfolding push_u8
IsCoded-tag write read a tag f of e h = record {
  bytes = tag ∷ h.bytes;
  written = λ buf. h.written (push_u8 buf tag) ∙ ap some (append_assoc buf (tag ∷ []) h.bytes);
  reads = Decodes-tag tag of h.bytes (f a) (rw e (Decodes-map read f h.bytes a (f a) h.reads refl));
}

-- A tag alone.
pub IsCoded-plain :
    {B : Type 0} (tag : ℕ) (b : B) (of : ℕ → Read B)
    → of tag ≡ pure b
    → IsCoded (λ buf. some (push_u8 buf tag)) (take_u8 >>= of) b
unfolding push_u8
IsCoded-plain tag b of e = record {
  bytes = tag ∷ [];
  written = λ buf. refl;
  reads = Decodes-tag tag of [] b (rw e (Decodes-pure b));
}

filtered_header-IsCoded :
    (header : BlockHeader) (signer : SigPair)
    → IsWireHeader header
    → IsSigPair signer
    → IsCoded
        (filtered_serialize (FilteredBlock.header header signer))
        take_filtered
        (FilteredBlock.header header signer)
unfolding filtered_serialize take_filtered filtered_of take_filtered_header
filtered_header-IsCoded header signer w k = record {
  bytes = 0 ∷ (header_bytes header ++ sig_pair_bytes signer);
  written = λ buf. ap some (simp (header_serialize_lem, pushes));
  reads = Decodes-tag 0 _ (header_bytes header ++ sig_pair_bytes signer) _ (
      Decodes-bind (or_io header_deserialize unexpected_eof) _ (header_bytes header)
        (sig_pair_bytes signer) header _
        (Decodes-or_io header_deserialize unexpected_eof _ header (header-Takes header w))
        (Decodes-map take_sig_pair (FilteredBlock.header header) (sig_pair_bytes signer) signer _
          (take_sig_pair-Decodes signer k) refl));
}

filtered-IsCoded :
    (filtered : FilteredBlock)
    → IsWireFiltered filtered
    → IsCoded (filtered_serialize filtered) take_filtered filtered
unfolding filtered_serialize take_filtered filtered_of
filtered-IsCoded (FilteredBlock.header header signer) (w, k) =
    filtered_header-IsCoded header signer w k
filtered-IsCoded (FilteredBlock.block block) (signer, w) =
    IsCoded-tag (block_serialize block) take_block block 1 FilteredBlock.block filtered_of refl
      (block-IsCoded block signer w)

info-IsCoded :
    (info : AccountInfo)
    → IsWireInfo info
    → IsCoded (λ buf. some (info_serialize info buf)) take_info info
unfolding info_serialize take_info
info-IsCoded info w = record {
  bytes =
      account_bytes info.account
      ++ (var_bytes info.net_fee.amount ++ var_bytes info.account_fee.amount);
  written = λ buf. ap some (simp (account_serialize_lem, pushes));
  reads =
      Decodes-bind _ _ (account_bytes info.account) _ info.account info
        (account_deserialize-Decodes info.account w.account_wire)
        (Decodes-bind take_asset _ (var_bytes info.net_fee.amount) _ info.net_fee info
          (take_asset-Decodes info.net_fee w.net_fee_i64)
          (Decodes-map take_asset _ (var_bytes info.account_fee.amount) info.account_fee info
            (take_asset-Decodes info.account_fee w.account_fee_i64) refl));
}

pub response-IsCoded :
    (res : Response)
    → IsWireResponse res
    → IsCoded (response_serialize res) response_deserialize res
unfolding response_serialize response_deserialize response_of
response-IsCoded Response.broadcast w = IsCoded-plain 0x10 _ response_of refl
response-IsCoded Response.set_block_filter w = IsCoded-plain 0x11 _ response_of refl
response-IsCoded Response.clear_block_filter w = IsCoded-plain 0x12 _ response_of refl
response-IsCoded Response.subscribe w = IsCoded-plain 0x13 _ response_of refl
response-IsCoded Response.unsubscribe w = IsCoded-plain 0x14 _ response_of refl
response-IsCoded (Response.get_properties props) (tx, w) =
    IsCoded-tag (λ buf. some (properties_serialize props buf)) take_properties props 0x20
      Response.get_properties response_of refl (properties-IsCoded props tx w)
response-IsCoded (Response.get_block filtered) w =
    IsCoded-tag (filtered_serialize filtered) take_filtered filtered 0x21 Response.get_block
      response_of refl (filtered-IsCoded filtered w)
response-IsCoded (Response.get_full_block block) (signer, w) =
    IsCoded-tag (block_serialize block) take_block block 0x22 Response.get_full_block response_of
      refl (block-IsCoded block signer w)
response-IsCoded Response.get_block_range w = IsCoded-plain 0x23 _ response_of refl
response-IsCoded (Response.get_account_info info) w =
    IsCoded-tag (λ buf. some (info_serialize info buf)) take_info info 0x24
      Response.get_account_info response_of refl (info-IsCoded info w)
