-- ===== src/Runtimes/Docker/Inventory.antt =====
-- What docker documents of a client's calls, by the containers and the networks that a daemon has.
use labos.Prelude.{String, Bool, List, ◌∷◌, ◌≡◌, ok, err}
use labos.Runtimes.Client.{ContainerConfig, Client}

pub record Inventory (client : Client) : Type 0 where
  pub containers : client.Daemon → List ContainerConfig
  pub networks : client.Daemon → List client.Network
  -- networks and volumes are no containers, and volumes and containers no networks
  pub containers-create_network :
      (name : String) (internal : Bool) (labels : List (String × String)) (d : client.Daemon)
      → containers (client.create_network name internal labels d).1 ≡ containers d
  pub containers-remove_network :
      (network : client.Network) (d : client.Daemon)
      → containers (client.remove_network network d).1 ≡ containers d
  pub containers-create_volume :
      (name : String) (labels : List (String × String)) (d : client.Daemon)
      → containers (client.create_volume name labels d).1 ≡ containers d
  pub containers-remove_volume :
      (volume : client.Volume) (d : client.Daemon)
      → containers (client.remove_volume volume d).1 ≡ containers d
  pub networks-create_volume :
      (name : String) (labels : List (String × String)) (d : client.Daemon)
      → networks (client.create_volume name labels d).1 ≡ networks d
  pub networks-remove_volume :
      (volume : client.Volume) (d : client.Daemon)
      → networks (client.remove_volume volume d).1 ≡ networks d
  pub networks-create_container :
      (config : ContainerConfig) (d : client.Daemon)
      → networks (client.create_container config d).1 ≡ networks d
  -- a container is made as it was asked for, or not at all
  pub create_container-ok :
      (config : ContainerConfig) (d d' : client.Daemon) (c : client.Container)
      → client.create_container config d ≡ (ok c, d')
      → containers d' ≡ config ∷ containers d
  pub create_container-err :
      (config : ContainerConfig) (d d' : client.Daemon) (e : String)
      → client.create_container config d ≡ (err e, d')
      → containers d' ≡ containers d
  pub create_network-ok :
      (name : String) (internal : Bool) (labels : List (String × String)) (d d' : client.Daemon)
      (network : client.Network)
      → client.create_network name internal labels d ≡ (ok network, d')
      → networks d' ≡ network ∷ networks d
  pub create_network-err :
      (name : String) (internal : Bool) (labels : List (String × String)) (d d' : client.Daemon)
      (e : String)
      → client.create_network name internal labels d ≡ (err e, d')
      → networks d' ≡ networks d
  -- a network is removed, or, say as it is in use, refused to be
  pub remove_network-ok :
      (network : client.Network) (others : List client.Network) (d d' : client.Daemon)
      → networks d ≡ network ∷ others
      → client.remove_network network d ≡ (ok tt, d')
      → networks d' ≡ others
  pub remove_network-err :
      (network : client.Network) (d d' : client.Daemon) (e : String)
      → client.remove_network network d ≡ (err e, d')
      → networks d' ≡ networks d
