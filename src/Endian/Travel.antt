-- ===== src/Endian/Travel.antt =====
-- A word that one host stores in a fixed byte order is the word that another host makes of it.
use libnetq.Prelude.{ℕ, ◌^◌, ◌<◌, ◌≡◌, ◌∙◌, ap}
use libnetq.Endian.{
  ByteOrder, little, big, store, load, host_to_be16, host_to_le16, host_to_be32, host_to_le32,
  host_to_be64, host_to_le64,
}
use libnetq.Endian.Memory.{
  load-store, length-store, store-IsByte, store-host_to_be16, host_to_be16-load, store-host_to_le16,
  host_to_le16-load, store-host_to_be32, host_to_be32-load, store-host_to_le32, host_to_le32-load,
  store-host_to_be64, host_to_be64-load, store-host_to_le64, host_to_le64-load,
}

pub host_to_be16_travels :
    (h h' : ByteOrder) (w : ℕ)
    → w < 2 ^ 16
    → host_to_be16 h' (load h' (store h 2 (host_to_be16 h w))) ≡ w
host_to_be16_travels h h' w p =
    ap (λ bytes. host_to_be16 h' (load h' bytes)) (store-host_to_be16 h w)
    ∙ host_to_be16-load h' _ (length-store big 2 w) (store-IsByte big 2 w)
    ∙ load-store big 2 w p

pub host_to_le16_travels :
    (h h' : ByteOrder) (w : ℕ)
    → w < 2 ^ 16
    → host_to_le16 h' (load h' (store h 2 (host_to_le16 h w))) ≡ w
host_to_le16_travels h h' w p =
    ap (λ bytes. host_to_le16 h' (load h' bytes)) (store-host_to_le16 h w)
    ∙ host_to_le16-load h' _ (length-store little 2 w) (store-IsByte little 2 w)
    ∙ load-store little 2 w p

pub host_to_be32_travels :
    (h h' : ByteOrder) (w : ℕ)
    → w < 2 ^ 32
    → host_to_be32 h' (load h' (store h 4 (host_to_be32 h w))) ≡ w
host_to_be32_travels h h' w p =
    ap (λ bytes. host_to_be32 h' (load h' bytes)) (store-host_to_be32 h w)
    ∙ host_to_be32-load h' _ (length-store big 4 w) (store-IsByte big 4 w)
    ∙ load-store big 4 w p

pub host_to_le32_travels :
    (h h' : ByteOrder) (w : ℕ)
    → w < 2 ^ 32
    → host_to_le32 h' (load h' (store h 4 (host_to_le32 h w))) ≡ w
host_to_le32_travels h h' w p =
    ap (λ bytes. host_to_le32 h' (load h' bytes)) (store-host_to_le32 h w)
    ∙ host_to_le32-load h' _ (length-store little 4 w) (store-IsByte little 4 w)
    ∙ load-store little 4 w p

pub host_to_be64_travels :
    (h h' : ByteOrder) (w : ℕ)
    → w < 2 ^ 64
    → host_to_be64 h' (load h' (store h 8 (host_to_be64 h w))) ≡ w
host_to_be64_travels h h' w p =
    ap (λ bytes. host_to_be64 h' (load h' bytes)) (store-host_to_be64 h w)
    ∙ host_to_be64-load h' _ (length-store big 8 w) (store-IsByte big 8 w)
    ∙ load-store big 8 w p

pub host_to_le64_travels :
    (h h' : ByteOrder) (w : ℕ)
    → w < 2 ^ 64
    → host_to_le64 h' (load h' (store h 8 (host_to_le64 h w))) ≡ w
host_to_le64_travels h h' w p =
    ap (λ bytes. host_to_le64 h' (load h' bytes)) (store-host_to_le64 h w)
    ∙ host_to_le64-load h' _ (length-store little 8 w) (store-IsByte little 8 w)
    ∙ load-store little 8 w p
